-- ===== src/Scheduler/Cycle/CatchUp.antt =====
-- The loop that moves `last_run_ms` on: when it ends, and with what.
use plcmaster.Prelude.{
  ℕ, zero, suc, ◌+◌, ◌-◌, ◌*◌, ◌%◌, ◌≤◌, ◌<◌, ◌≡◌, refl, ap, ◌∙◌, Bool-cases, inl, inr, none, some,
  leb, arith,
}
use plcmaster.Scheduler.{u32_mod}
use plcmaster.Scheduler.Cycle.{u64_mod, since, catch_up}

-- Below 2^32 ms of monotonic time, with a period that is not 0 and a last run that is not after `now`, the
-- loop ends within `now - last + 1` rounds. It has moved `last_run_ms` on by whole periods, to the last
-- instant of that grid that is not after `now`.
pub catch_up_total :
    (fuel now period last : ℕ)
    → 0 < period
    → last ≤ now
    → now < u32_mod
    → now - last < fuel
    → (k : ℕ) × (catch_up fuel now period last ≡ some (last + k * period))
      × (last + k * period ≤ now)
      × (now < last + k * period + period)
unfolding catch_up
catch_up_total zero now period last pos le small f = elim f [ ]
catch_up_total (suc fuel) now period last pos le small f =
    elim (Bool-cases (leb period (since now last))) [
      | inl more ↦
          let step : period ≤ now - last = ground arith in
          let whole : (last + period) % u32_mod ≡ last + period = omega arith in
          let (k, e, lo, hi) =
            catch_up_total fuel now period (last + period) pos (omega arith) small (omega arith) in
          (
            suc k,
            rw more (ap (catch_up fuel now period) whole ∙ e ∙ ap some (omega arith)),
            omega arith,
            omega arith,
          )
      | inr done ↦
          let near : now - last < period = ground arith in
          (0, rw done (ap some (omega arith)), omega arith, omega arith)
    ]

-- From 2^32 ms and one period of monotonic time on the loop never ends, whatever `last_run_ms` holds: no
-- number of rounds is enough.
pub catch_up_stuck :
    (fuel now period last : ℕ)
    → u32_mod + period ≤ now
    → now < u64_mod
    → last < u32_mod
    → catch_up fuel now period last ≡ none
unfolding catch_up
catch_up_stuck zero now period last late top fits = refl
catch_up_stuck (suc fuel) now period last late top fits =
    ground
      (arith, catch_up_stuck fuel now period ((last + period) % u32_mod) late top (omega arith))
