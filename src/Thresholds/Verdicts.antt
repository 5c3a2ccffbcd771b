-- ===== src/Thresholds/Verdicts.antt =====
-- What the thresholds of engine/src/services/thresholds.ts decide.
use looksee.Prelude.{◌≡◌, refl, sym, ap, ◌∙◌, false, Option, none, some, [], arith, if◌then◌else◌}
use looksee.Prelude.Text.{Text}
use looksee.Thresholds.{
  Status, up, warn, down, worst, Numbers, Config, ValueThresholds, number_of, get,
  read_value_thresholds, has_thresholds, below, above, evaluate_value, MeasuredResult, Judged,
  apply_value, apply_latency, with_notes, apply_thresholds,
}

module _ (N : Numbers) where
  -- What each threshold says on its own.
  abbrev pub value_verdict : Option N.Number → ValueThresholds N → Status
  value_verdict none t = up
  value_verdict (some v) t =
      if below N v t.critical_below
      then down
      else if above N v t.critical_above
      then down
      else if below N v t.warn_below
      then warn
      else if above N v t.warn_above
      then warn
      else up

  abbrev pub latency_verdict : Option N.Number → Option N.Number → Option N.Number → Status
  latency_verdict none lat_warn lat_crit = up
  latency_verdict (some ms) lat_warn lat_crit =
      if above N ms lat_crit then down else if above N ms lat_warn then warn else up

  evaluate_value-status :
      (v : N.Number) (t : ValueThresholds N) (unit : Text)
      → (evaluate_value N v t unit).status ≡ value_verdict (some v) t
  unfolding evaluate_value
  evaluate_value-status v t unit = ground arith

  verdict_of_none :
      (v : Option N.Number) (t : ValueThresholds N)
      → has_thresholds N t ≡ false
      → value_verdict v t ≡ up
  unfolding has_thresholds
  verdict_of_none v t h = ground arith

  apply_value-status :
      (j : Judged N) (v : Option N.Number) (t : ValueThresholds N) (unit : Text)
      → (apply_value N j v t unit).status ≡ worst j.status (value_verdict v t)
  unfolding apply_value worst
  apply_value-status j none t unit = ground arith
  apply_value-status j (some v) t unit =
      ground (arith, evaluate_value-status v t unit, verdict_of_none (some v) t)

  apply_latency-status :
      (j : Judged N) (ms lat_warn lat_crit : Option N.Number)
      → (apply_latency N j ms lat_warn lat_crit).status
        ≡ worst j.status (latency_verdict ms lat_warn lat_crit)
  unfolding apply_latency worst
  apply_latency-status j ms lat_warn lat_crit = ground arith

  -- The settings of a check, judged on their own: the value's and the response time's verdict.
  abbrev pub verdict_of_value : MeasuredResult N → Config N → Status
  verdict_of_value r c = value_verdict r.value (read_value_thresholds N c)

  abbrev pub verdict_of_latency : MeasuredResult N → Config N → Status
  verdict_of_latency r c =
      latency_verdict r.latency_ms (number_of N (get N c "latencyWarnMs"))
        (number_of N (get N c "latencyCriticalMs"))

  -- Applying the thresholds gives the worst of three statuses: the probe's own, the verdict of the
  -- value thresholds and the verdict of the response-time thresholds; the value and the response
  -- time stay as they were.
  pub apply_thresholds-worst :
      (r : MeasuredResult N) (c : Config N) (unit : Text)
      → ((apply_thresholds N r c unit).status
          ≡ worst (worst r.status (verdict_of_value r c)) (verdict_of_latency r c))
        × ((apply_thresholds N r c unit).value ≡ r.value)
        × ((apply_thresholds N r c unit).latency_ms ≡ r.latency_ms)
  unfolding apply_thresholds
  apply_thresholds-worst r c unit = (rw (apply_latency-status, apply_value-status), refl, refl)

  apply_value-notes :
      (j : Judged N) (v : Option N.Number) (t : ValueThresholds N) (unit : Text)
      → (apply_value N j v t unit).status ≡ j.status
      → (apply_value N j v t unit).notes ≡ j.notes
  unfolding apply_value
  apply_value-notes j none t unit h = refl
  apply_value-notes j (some v) t unit h = ground arith

  apply_latency-notes :
      (j : Judged N) (ms lat_warn lat_crit : Option N.Number)
      → (apply_latency N j ms lat_warn lat_crit).status ≡ j.status
      → (apply_latency N j ms lat_warn lat_crit).notes ≡ j.notes
  unfolding apply_latency
  apply_latency-notes j ms lat_warn lat_crit h = ground arith

  -- Both steps leave the status alone if together they do.
  steps_keep_status : (s : Status) (a b : Status) → worst (worst s a) b ≡ s → worst s a ≡ s
  unfolding worst
  steps_keep_status s a b h = ground arith

  with_no_notes : (m : Option Text) → with_notes N [] m ≡ m
  unfolding with_notes
  with_no_notes m = refl

  -- A result whose status the thresholds leave alone is left alone altogether, its message
  -- included.
  pub apply_thresholds_kept :
      (r : MeasuredResult N) (c : Config N) (unit : Text)
      → (apply_thresholds N r c unit).status ≡ r.status
      → apply_thresholds N r c unit ≡ r
  unfolding apply_thresholds
  apply_thresholds_kept r c unit h =
      let j : Judged N = record { status = r.status; notes = [] } in
      let t = read_value_thresholds N c in
      let a = apply_value N j r.value t unit in
      let lw = number_of N (get N c "latencyWarnMs") in
      let lc = number_of N (get N c "latencyCriticalMs") in
      let same_a : a.status ≡ r.status =
        apply_value-status j r.value t unit
        ∙ steps_keep_status r.status (value_verdict r.value t) (latency_verdict r.latency_ms lw lc)
            (sym (
                apply_latency-status a r.latency_ms lw lc
                ∙ ap (λ s. worst s (latency_verdict r.latency_ms lw lc))
                    (apply_value-status j r.value t unit))
              ∙ h) in
      let no_value_notes = apply_value-notes j r.value t unit same_a in
      let no_notes = apply_latency-notes a r.latency_ms lw lc (h ∙ sym same_a) ∙ no_value_notes in
      λ i. record r {
        status = h i;
        message = (ap (λ n. with_notes N n r.message) no_notes ∙ with_no_notes r.message) i;
      }
