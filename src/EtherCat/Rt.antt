-- ===== src/EtherCat/Rt.antt =====
-- backends/ethercat/ec_backend.c: the real-time thread of the EtherCAT driver.
--
-- One pass of the loop is the composition of its parts, in the order of the source. The clock that it
-- reads is an argument.
use plcmaster.Prelude.{
  ℕ, ◌+◌, ◌-◌, ◌*◌, ◌%◌, ◌^◌, Bool, true, false, ◌||◌, ◌&&◌, not, if◌then◌else◌, ltb, leb, ◌==◌,
}
use plcmaster.EtherCat.{
  EthercatDriver, RtLocals, RtStats, absent, created, ended, looping, copy_out_to_iomap,
  copy_iomap_to_in, load_buffer_index, on_image, image_of, zero_output_buffers,
}
use plcmaster.EtherCat.Soem.{Soem, state_operational, is_negative}

-- `EC_DEFAULT_WKC_WARN_THRESHOLD` and `EC_DEFAULT_WKC_FAIL_THRESHOLD`
abbrev pub default_warn : ℕ
default_warn = 2

abbrev pub default_fail : ℕ
default_fail = 10

abbrev pub u32_max : ℕ
u32_max = 2 ^ 32 - 1

abbrev pub or_default : ℕ → ℕ → ℕ
or_default x fallback = if x == 0 then fallback else x

-- Whether a pass counts as bad: `wkc` below what is expected, or the bus not operational, after the
-- passes that warm up.
unfoldable pub bad_cycle : RtLocals → ℕ → ℕ → ℕ → Bool
bad_cycle l wkc ec_state warmup_cycles =
    if ltb l.cycle_count warmup_cycles
    then false
    else (ltb 0 l.expected_wkc && (is_negative wkc || ltb wkc l.expected_wkc))
      || not (ec_state == state_operational)

-- The counter of bad passes in a row, which stops at its largest value.
unfoldable pub next_bad : Bool → ℕ → ℕ
next_bad bad count = if bad then if ltb count u32_max then count + 1 else count else 0

-- The jitter of a pass that was to end at `deadline` and ended at `now`.
unfoldable pub measure : ℕ → ℕ → RtStats → RtStats
measure now deadline s =
    let ahead = (now + 2 ^ 64 - deadline) % 2 ^ 64 in
    let jitter = if ltb ahead (2 ^ 63) then ahead else 2 ^ 64 - ahead in
    record {
      cycle_count = (s.cycle_count + 1) % 2 ^ 64;
      overruns =
          if not (ahead == 0) && ltb ahead (2 ^ 63) then (s.overruns + 1) % 2 ^ 64 else s.overruns;
      jitter_current_ns = jitter;
      jitter_min_ns = if ltb jitter s.jitter_min_ns then jitter else s.jitter_min_ns;
      jitter_max_ns = if ltb s.jitter_max_ns jitter then jitter else s.jitter_max_ns;
    }

unfoldable pub next_deadline : ℕ → ℕ → ℕ → ℕ
next_deadline now period deadline =
    if ltb ((deadline + period * 5) % 2 ^ 64) now
    then (now + period) % 2 ^ 64
    else (deadline + period) % 2 ^ 64

module _ {Ctx : Type 0} where
  -- The outputs in the buffer with an index, which the thread has loaded, go into the process image, zeros
  -- once a fault is latched.
  abbrev pub send_from : ℕ → EthercatDriver Ctx → EthercatDriver Ctx
  send_from out_idx d =
      on_image (copy_out_to_iomap d.devices out_idx (not (d.fault_latched == 0))) d

  unfoldable pub rt_send : EthercatDriver Ctx → EthercatDriver Ctx
  unfolding copy_out_to_iomap
  rt_send d =
      let out_idx = load_buffer_index d.rt_out_buffer_idx 0 in
      record (send_from out_idx d) { rt_out_buffer_idx = out_idx }

  -- The inputs go into the buffer that is not current, which then is published.
  unfoldable pub rt_receive : EthercatDriver Ctx → EthercatDriver Ctx
  unfolding copy_iomap_to_in
  rt_receive d =
      let next_in = 1 - load_buffer_index d.active_in_buffer_idx 0 in
      record d {
        devices = copy_iomap_to_in next_in (image_of d) d.devices;
        active_in_buffer_idx = next_in;
      }

  -- The fault is latched after enough bad passes in a row. The exchange that latches it the first time
  -- clears the outputs.
  unfoldable pub latch : ℕ → ℕ → EthercatDriver Ctx → EthercatDriver Ctx
  unfolding zero_output_buffers
  latch fail count d =
      let trips = leb fail count in
      let first = trips && d.fault_latched == 0 in
      let zeros = zero_output_buffers d in
      record d {
        fault_latched = if trips then 1 else d.fault_latched;
        devices = if first then zeros.devices else d.devices;
        iomap = if first then zeros.iomap else d.iomap;
      }

  unfoldable pub judge : RtLocals → EthercatDriver Ctx → EthercatDriver Ctx
  unfolding bad_cycle next_bad latch
  judge l d =
      let count =
        next_bad (bad_cycle l d.last_wkc d.ec_state d.settings.warmup_cycles) d.dowkccheck in
      record (latch l.wkc_fail_threshold count (record d { dowkccheck = count })) {
        in_op = d.ec_state == state_operational && ltb count l.wkc_warn_threshold;
      }

  -- The statements before the loop.
  unfoldable pub rt_enter : ℕ → EthercatDriver Ctx → EthercatDriver Ctx
  rt_enter now d = record d {
    rt_is_running = true;
    rt_thread = looping (record {
      expected_wkc = d.expected_wkc;
      wkc_warn_threshold = or_default d.settings.wkc_warn_threshold default_warn;
      wkc_fail_threshold = or_default d.settings.wkc_fail_threshold default_fail;
      cycle_count = 0;
      deadline = (now + d.settings.period_ns) % 2 ^ 64;
    });
  }

module _ {Ctx : Type 0} (soem : Soem Ctx) where
  -- `ecx_send_processdata` and `ecx_receive_processdata`; `last_wkc` is what the second returns.
  unfoldable pub exchange : EthercatDriver Ctx → EthercatDriver Ctx
  exchange d =
      let (ctx, (image, wkc)) =
        soem.receive_processdata (soem.send_processdata d.ctx (image_of d)) (image_of d) in
      record (on_image (λ old. image) d) { ctx = ctx; last_wkc = wkc }

  -- The periodic state watchdog.
  unfoldable pub watch_state : EthercatDriver Ctx → EthercatDriver Ctx
  watch_state d =
      let ctr = (d.state_check_cycle_ctr + 1) % 2 ^ 32 in
      let due = leb d.settings.state_check_period_cycles ctr in
      let ctx = if due then soem.readstate d.ctx else d.ctx in
      record d {
        state_check_cycle_ctr = if due then 0 else ctr;
        ctx = ctx;
        ec_state = if due then (soem.slave ctx 0).state else d.ec_state;
      }

  -- One pass of the loop of `ethercat_rt_thread`.
  unfoldable pub rt_cycle : ℕ → RtLocals → EthercatDriver Ctx → EthercatDriver Ctx
  unfolding exchange rt_send watch_state rt_receive judge measure next_deadline
  rt_cycle now l d =
      let d' = judge l (rt_receive (watch_state (exchange (rt_send d)))) in
      record d' {
        stats = measure now l.deadline d.stats;
        rt_thread = looping (record l {
          cycle_count = (l.cycle_count + 1) % 2 ^ 64;
          deadline = next_deadline now d.settings.period_ns l.deadline;
        });
      }

  -- Zeros go to every output, in the buffers and on the bus.
  unfoldable pub send_zeros : EthercatDriver Ctx → EthercatDriver Ctx
  unfolding exchange zero_output_buffers copy_out_to_iomap
  send_zeros d =
      let z = zero_output_buffers d in exchange (on_image (copy_out_to_iomap z.devices 0 true) z)

  -- The statements after the loop.
  unfoldable pub rt_exit : EthercatDriver Ctx → EthercatDriver Ctx
  unfolding send_zeros
  rt_exit d = record (send_zeros d) {
    last_wkc = d.last_wkc;
    rt_is_running = false;
    rt_thread = ended;
  }

  -- The next part of the thread: its start, a pass of its loop, or its end.
  unfoldable pub rt_step : ℕ → EthercatDriver Ctx → EthercatDriver Ctx
  unfolding rt_cycle rt_enter rt_exit
  rt_step now d = elim d.rt_thread [
    | absent ↦ d
    | created ↦ rt_enter now d
    | looping l ↦ if d.rt_should_run then rt_cycle now l d else rt_exit d
    | ended ↦ d
  ]
