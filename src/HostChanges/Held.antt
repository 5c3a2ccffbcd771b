-- ===== src/HostChanges/Held.antt =====
-- `evaluateReboot` of engine/src/services/endpointMetrics.ts over the reports that follow a reboot.
use looksee.Prelude.{
  ℕ, ◌+◌, ◌≤◌, ◌≡◌, refl, ap, ◌∙◌, true, false, Option, none, some, List, [], ◌∷◌, inl, inr,
  if◌then◌else◌, Bool-cases, arith,
}
use looksee.Prelude.Text.{Text}
use looksee.Thresholds.{up}
use looksee.HostChanges.{
  Config, RebootState, has_rebooted, is_recent, event_status, evaluate_reboot,
}

-- A report: the time of the boot, if it has one, and the instant of the report.
abbrev pub Report : Type 0
Report = Option ℕ × ℕ

-- No report's boot is more than a minute after the one of the report before.
abbrev pub Steady : ℕ → List Report → Type 0
Steady boot [] = Unit
Steady boot ((none, now) ∷ reports) = Steady boot reports
Steady boot ((some b, now) ∷ reports) = (b ≤ boot + 60) × Steady b reports

module _ (show_boot : ℕ → Text) where
  unfoldable pub after_reports : Config → RebootState → List Report → RebootState
  after_reports c st [] = st
  after_reports c st ((boot, now) ∷ reports) =
      after_reports c (evaluate_reboot show_boot c st boot now).1 reports

  abbrev pub last_boot : ℕ → List Report → ℕ
  last_boot boot [] = boot
  last_boot boot ((none, now) ∷ reports) = last_boot boot reports
  last_boot boot ((some b, now) ∷ reports) = last_boot b reports

  not_rebooted : (boot b : ℕ) → b ≤ boot + 60 → has_rebooted (some boot) b ≡ false
  not_rebooted boot b h = ground arith

  keeps :
      (c : Config) (boot at : ℕ) (reports : List Report)
      → Steady boot reports
      → after_reports c (record { boot_time = some boot; rebooted_at = some at }) reports
        ≡ record { boot_time = some (last_boot boot reports); rebooted_at = some at }
  unfolding after_reports evaluate_reboot
  keeps c boot at [] h = refl
  keeps c boot at ((none, now) ∷ reports) h = keeps c boot at reports h
  keeps c boot at ((some b, now) ∷ reports) (near, h) =
      rw (not_rebooted boot b near) (keeps c b at reports h)

  -- A reboot keeps the check failing for the hold time and no longer, however many reports follow:
  -- after a report at the instant `at` with a boot more than a minute later than the one before, a
  -- later report of the same boot has the status of the event until `at` and the hold time, and is
  -- up from then on. Between the two, each report's boot is at most a minute after the last one's.
  pub evaluate_reboot_held :
      (c : Config) (st : RebootState) (prev boot at : ℕ) (reports : List Report) (b now : ℕ)
      → st.boot_time ≡ some prev
      → prev + 60 + 1 ≤ boot
      → Steady boot reports
      → b ≤ last_boot boot reports + 60
      → (evaluate_reboot show_boot c
          (after_reports c (evaluate_reboot show_boot c st (some boot) at).1 reports)
          (some b)
          now).0.status
        ≡ (if is_recent c (some at) now then event_status c else up)
  unfolding evaluate_reboot
  evaluate_reboot_held c st prev boot at reports b now known later steady near =
      let rebooted : has_rebooted st.boot_time boot ≡ true =
        ap (λ o. has_rebooted o boot) known ∙ (ground arith) in
      rw (rebooted, keeps c boot at reports steady, not_rebooted (last_boot boot reports) b near)
        (elim (Bool-cases (is_recent c (some at) now)) [
          | inl held ↦ rw held refl
          | inr over ↦ rw over refl
        ])
