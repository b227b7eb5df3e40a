-- ===== src/Tests/Supervising.antt =====
-- A supervised process that ends when it is told to.
use aqualinkd_validator.Prelude.{◌≡◌, ◌∙◌, refl, Bool, true, false, Option, none, some, [], ◌∷◌, ap}
use aqualinkd_validator.Equipment.{ℤ, pos, negsuc, callback, Res, ok, failed}
use aqualinkd_validator.Engine.Restoration.Logic.{Post}
use aqualinkd_validator.Supervisor.{Host, Config, neither, supervise}
use aqualinkd_validator.Supervisor.Verdict.{IsHost}
use aqualinkd_validator.Supervisor.Ending.{Supervised, supervise-Supervised}

record Process : Type 0 where
  signalled : Bool
  code : Option ℤ

abbrev exits : ℤ → Process → Process
exits code p = record p { code = some code }

abbrev waited : Option ℤ → Process → Res ℤ × Process
waited (some code) p = (ok code, p)
waited none p = (ok (pos 0), exits (pos 0) p)

abbrev waited_for : Option ℤ → Bool → Process → Res (Option ℤ) × Process
waited_for (some code) b p = (ok (some code), p)
waited_for none true p = (ok (some (negsuc 14)), exits (negsuc 14) p)
waited_for none false p = (ok none, p)

abbrev process : Host Process
process = record {
  spawn = λ p. (ok tt, p);
  returncode = λ p. p.code;
  wait_process = λ p. waited p.code p;
  wait_process_for = λ seconds p. waited_for p.code p.signalled p;
  kill = λ signal p. (ok tt, record p { signalled = true });
  wait_first = λ seconds p. (ok neither, p);
  scenario_done = λ p. true;
  scenario_result = λ p. (failed (callback "scenario"), p);
  stop_scenario = λ seconds p. (ok tt, p);
  stop_sampler = λ p. (ok tt, p);
  reader_results = λ p. (ok (none ∷ none ∷ []), p);
  close_observers = (λ p. (ok tt, p)) ∷ (λ p. (ok tt, p)) ∷ [];
}

ok_eq : {A : Type 0} {a b : A} → ok a ≡ ok b → a ≡ b
ok_eq h = cc

process-IsHost : IsHost process
process-IsHost = record {
  wait_process = λ p code e. waits p.code p code refl e;
  wait_process_for = λ p seconds code e. waits_for p.code p.signalled p code refl e;
  stop_sampler = λ p code e. e;
  reader_results = λ p code e. e;
  close_observers = (λ p code e. e, (λ p code e. e, tt));
}
  where
    waits :
        (c : Option ℤ) (p : Process) (code : ℤ)
        → p.code ≡ c
        → (waited c p).0 ≡ ok code
        → (waited c p).1.code ≡ some code
    waits (some c) p code q e = q ∙ ap some (ok_eq e)
    waits none p code q e = ap some (ok_eq e)

    waits_for :
        (c : Option ℤ) (b : Bool) (p : Process) (code : ℤ)
        → p.code ≡ c
        → (waited_for c b p).0 ≡ ok (some code)
        → (waited_for c b p).1.code ≡ some code
    waits_for (some c) b p code q e = q ∙ ok_eq e
    waits_for none true p code q e = ok_eq e
    waits_for none false p code q e = absurd (cc e)

abbrev five_seconds : Config
five_seconds = record {
  has_scenario = false;
  duration_seconds = some 5;
  terminate_grace_seconds = 1;
  scenario_cleanup_seconds = 2;
}

abbrev alive : Process
alive = record { signalled = false; code = none }

supervise-Supervised_example :
    Post (Supervised process) (λ _. Unit) (supervise process five_seconds alive)
supervise-Supervised_example = supervise-Supervised process process-IsHost five_seconds alive
