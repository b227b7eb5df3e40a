-- ===== src/Supervisor/Ending.antt =====
-- What a supervised run that returns has told, and why it may have passed.
use aqualinkd_validator.Prelude.{
  String, Bool, true, false, not, ◌≡◌, refl, sym, ◌∙◌, Option, none, some, List, [], ◌∷◌, ◌⊎◌, inl,
  inr, if◌then◌else◌, All, all,
}
use aqualinkd_validator.Equipment.{ℤ, pos, Failure, Res, ok, failed, cancelled}
use aqualinkd_validator.Engine.Restoration.Action.{Act, pure, lift, ◌>>=◌, ◌>>◌}
use aqualinkd_validator.Engine.Restoration.Logic.{
  Post, Post-intro, Post-any, Attempted, Triple, Triple-weaken, Triple-attempt, Triple-bind,
}
use aqualinkd_validator.Engine.Restoration.Keeping.{Keeping, keep_pure, keep_bind}
use aqualinkd_validator.Supervisor.{
  run_passed, run_failed, Reason, duration_over, reported, child_exit, observer_close_failed, Event,
  output_observer_close_error, process_finished, Host, Config, Run, RunResult, new_run, write,
  verdict, on_world, body, interrupt, note_readers, join_readers, note_close, close_all, finish,
  conclude, handled, result, concluded, supervise,
}
use aqualinkd_validator.Supervisor.Verdict.{
  IsHost, Stays, is_output_error, Loose, Sound, Loose-Sound, body-Sound, interrupt-Loose, Gone, Any,
  stop_leftover-Gone,
}

-- What a result tells of the run that gave it.
pub record Supervised {W : Type 0} (host : Host W) (r : RunResult) (s : Run W) : Type 0 where
  -- the timeline ends with the result
  pub told :
      (rest : List Event) × (s.events
        ≡ process_finished r.status r.reason r.child_returncode ∷ rest)
  -- a process that was started has exited
  pub exited : s.started ≡ true → (code : ℤ) × (host.returncode s.world ≡ some code)
  -- a run that passed was told to by its duration, its scenario or an exit with code 0, and no
  -- reader and no observer failed
  pub cause :
      r.status ≡ run_passed
      → (all (λ e. not (is_output_error e)) s.events ≡ true)
        × ((r.reason ≡ duration_over)
            ⊎ ((text : String) × (r.reason ≡ reported text))
            ⊎ ((r.reason ≡ child_exit) × (r.child_returncode ≡ some (pos 0))))

module _ {W : Type 0} (host : Host W) (law : IsHost host) (config : Config) where
  -- After the process is gone: a run that passed is still sound.
  abbrev Done : Run W → Type 0
  Done s = Gone host law config s × ((s.status ≡ run_failed) ⊎ Sound host s)

  -- A run that failed for good.
  abbrev Failed : Run W → Type 0
  Failed s = Gone host law config s × (s.status ≡ run_failed)

  on_world-Done : {A : Type 0} (m : Act W A) → Stays host m → Keeping Done (on_world m)
  on_world-Done m stays = record {
    at = λ s h.
        let after = kept s h in Post-intro (λ _. Done) Done (on_world m s) (λ a e. after) after;
  }
    where
      sound :
          (s : Run W)
          → (s.status ≡ run_failed) ⊎ Sound host s
          → ((on_world m s).1.status ≡ run_failed) ⊎ Sound host (on_world m s).1
      sound s (inl f) = inl f
      sound s (inr (c, inl a)) = inr (c, inl a)
      sound s (inr (c, inr (r, noted, x))) = inr (c, inr (r, noted, stays s.world (pos 0) x))

      kept : (s : Run W) → Done s → Done (on_world m s).1
      kept s (gone, verdict) =
          (λ up. let (code, x) = gone up in (code, stays s.world code x), sound s verdict)

  note-Done :
      (reason : Reason) (event : Event) → Keeping Done (verdict run_failed reason >> write event)
  note-Done reason event =
      Triple-bind (λ _. Failed) (record { at = λ s h. (h.0, refl) })
        λ _. record { at = λ s h. (h.0, inl h.1) }

  note_readers-Done :
      (results : List (Option Failure)) → Keeping Done (note_readers host config results)
  unfolding note_readers
  note_readers-Done [] = keep_pure tt
  note_readers-Done (none ∷ results) = note_readers-Done results
  note_readers-Done (some f ∷ results) =
      Triple-bind (λ _. Failed) (record { at = λ s h. (h.0, refl) })
        λ _.
          Triple-bind (λ _. Done) (record { at = λ s h. (h.0, inl h.1) })
            λ _. note_readers-Done results

  join_readers-Done : Keeping Done (join_readers host config)
  unfolding join_readers
  join_readers-Done = keep_bind (record { at = λ s h. h }) λ now. joined now.started
    where
      joined :
          (b : Bool)
          → Keeping Done (
              if b
              then (on_world host.stop_sampler
                  >> (on_world host.reader_results >>= note_readers host config))
              else pure tt)
      joined true =
          keep_bind (on_world-Done host.stop_sampler law.stop_sampler)
            λ _. keep_bind (on_world-Done host.reader_results law.reader_results) note_readers-Done
      joined false = keep_pure tt

  close_all-Done :
      (closes : List (Act W (Unit {0})))
      → All (Stays host) closes
      → Keeping Done (close_all host config closes)
  unfolding close_all
  close_all-Done [] stays = keep_pure tt
  close_all-Done (close ∷ rest) (stay, stays) =
      Triple-bind (Attempted (λ _. Done) Done) (Triple-attempt (on_world-Done close stay))
        λ o. Triple-bind (λ _. Done) (noted o) λ _. close_all-Done rest stays
    where
      noted :
          (o : Unit {0} ⊎ Failure)
          → Triple (Attempted (λ _. Done) Done o) (note_close host config o) (λ _. Done) Done
      noted (inl u) = record { at = λ s h. h }
      noted (inr f) = note-Done observer_close_failed (output_observer_close_error f)

  abbrev Told : Run W → Type 0
  Told s =
      Done s
      × ((rest : List Event) × (s.events ≡ process_finished s.status s.reason s.returncode ∷ rest))

  finish-Told : Triple Done (finish host config) (λ _. Told) (Any host law config)
  unfolding finish ◌>>=◌
  finish-Told = record { at = λ s h. ((h.0, h.1), (s.events, refl)) }

  conclude-Told : Triple (Sound host) (conclude host config) (λ _. Told) (Any host law config)
  unfolding conclude
  conclude-Told =
      Triple-bind (λ _ s. Sound host s × Gone host law config s)
        (stop_leftover-Gone host law config)
        λ _.
          Triple-bind (λ _. Done)
            (record {
              at = λ s h. (Triple-weaken (λ t k. tt) join_readers-Done).at s (h.1, inr h.0);
            })
            λ _.
              Triple-bind (λ _. Done)
                (Triple-weaken (λ t k. tt)
                  (close_all-Done host.close_observers law.close_observers))
                λ _. finish-Told

  Told-Supervised :
      (s : Run W)
      → Told s
      → Supervised host
          (record { status = s.status; reason = s.reason; child_returncode = s.returncode })
          s
  Told-Supervised s ((gone, verdict), told) = record {
    told = told;
    exited = gone;
    cause = λ passed. elim verdict [
      | inl f ↦ let no : run_passed ≡ run_failed = sym passed ∙ f in absurd (cc no)
      | inr (c, inl (inl f)) ↦ let no : run_passed ≡ run_failed = sym passed ∙ f in absurd (cc no)
      | inr (c, inl (inr (inl e))) ↦ (c, inl e)
      | inr (c, inl (inr (inr t))) ↦ (c, inr (inl t))
      | inr (c, inr (r, noted, x)) ↦ (c, inr (inr (r, noted)))
    ];
  }

  result-Supervised :
      (r : Res (Unit {0}))
      → Triple Told (lift r >> result host config) (Supervised host) (Any host law config)
  result-Supervised r =
      Triple-bind (λ _. Told)
        (record { at = λ s h. Post-intro (λ _. Told) (Any host law config) (r, s) (λ a e. h) tt })
        λ _. record { at = Told-Supervised }

  handled-Sound :
      (r : Res (Unit {0}) × Run W)
      → Post (λ _. Sound host) (Sound host) r
      → Sound host (handled host config r).1
  handled-Sound (ok u, s) h = h
  handled-Sound (failed f, s) h = h
  handled-Sound (cancelled, s) h =
      let raised : Triple (Sound host) (interrupt host config >> lift cancelled)
          (λ (_ : Unit {0}). Loose host) (Loose host) =
        Triple-bind (λ _. Loose host) (interrupt-Loose host law config)
          (λ _. record { at = λ t k. k }) in
      Loose-Sound host (handled host config (cancelled, s)).1
        (Post-any (Loose host) ((interrupt host config >> lift cancelled) s) (raised.at s h))

  concluded-Supervised :
      (r : Res (Unit {0}) × Run W)
      → Sound host r.1
      → Post (Supervised host) (λ _. Unit {0}) (concluded host config r)
  concluded-Supervised (r, s) h =
      (Triple-bind (λ _. Told) conclude-Told (λ _. result-Supervised r)).at s h

  -- Over a process that stays exited once it has, and waits that tell its code: if supervise
  -- returns, the timeline ends with its result, a process that was started has exited, and a result
  -- that passed has a cause: the duration, the scenario, or an exit with code 0, and no failure of
  -- a reader or an observer.
  pub supervise-Supervised :
      (world : W) → Post (Supervised host) (λ _. Unit {0}) (supervise host config world)
  unfolding supervise
  supervise-Supervised world =
      concluded-Supervised (handled host config (body host config (new_run world))) (
        handled-Sound (body host config (new_run world))
          ((body-Sound host law config).at (new_run world) (refl, inl refl)))
