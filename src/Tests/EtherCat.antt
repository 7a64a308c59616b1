-- ===== src/Tests/EtherCat.antt =====
-- An EtherCAT bus with two slaves: one with two bytes of outputs and two of inputs, one with one byte of
-- outputs.
use mathlib.Core.Path.{subst}
use plcmaster.Prelude.{
  ◌≤◌, ℕ, zero, suc, ◌+◌, ◌%◌, ◌<◌, ◌≡◌, ◌≢◌, refl, ◌∙◌, ap, true, false, none, some, some_inj,
  List, [], ◌∷◌, if◌then◌else◌, ◌==◌, get_elem?, set, slice, replicate, length-set, codes, arith,
}
use plcmaster.Device.{DeviceConfig, DeviceDesc}
use plcmaster.Backend.{IsStaging}
use plcmaster.EtherCat.{
  load_buffer_index, Buffers, EthercatDevice, EthercatSettings, RtLocals, EthercatDriver, absent,
  created, looping, image_of,
}
use plcmaster.EtherCat.Soem.{Soem, Slave, configure_iomap_group0, await_safe_op, request_safe_op}
use plcmaster.EtherCat.Setup.{Host, is_bound, ethercat_bind_device}
use plcmaster.EtherCat.Setup.Laws.{IsBound, AreDistinct, ethercat_bind_device-IsBound}
use plcmaster.EtherCat.Mapping.{
  new_buffers, matches, map_device, map_from, map_devices, reset, ethercat_finalize_mapping, ec_ops,
}
use plcmaster.EtherCat.Mapping.Laws.{LaysOut}
use plcmaster.EtherCat.Mapping.Final.{IsFinal, ethercat_finalize_mapping-IsFinal}
use plcmaster.EtherCat.Ops.{
  fresh_stats, bring_up, start, cycle_begin, cycle_end, get_input_data, get_output_data,
  store_output,
}
use plcmaster.EtherCat.{
  zero_output_buffers, copy_out_to_iomap, put_outputs, copy_iomap_to_in, take_inputs,
  copy_out_buffers, keep_outputs, zero_each, zero_outputs_of, zero_image,
}
use plcmaster.EtherCat.Soem.{request_op, await_op}
use plcmaster.EtherCat.Rt.{
  send_from, exchange, rt_send, rt_cycle, rt_step, judge, latch, bad_cycle, next_bad, measure,
  next_deadline, rt_receive, watch_state,
}
use plcmaster.EtherCat.Ready.{IsReady, KeepsImage}
use plcmaster.EtherCat.Indices.{IsSwapped}
use plcmaster.EtherCat.Ready.Events.{store_output-IsReady}
use plcmaster.EtherCat.Indices.{store_output-IsSwapped}
use plcmaster.EtherCat.Outputs.{outputs_at, out_bytes}
use plcmaster.EtherCat.Publish.{IsDevice, rt_send-cycle_end}
use plcmaster.EtherCat.PlcCycle.{rt_send-plc_cycle}
use plcmaster.EtherCat.Fault.{passes, all_bad, pass_bad, rt_send-latched}
use plcmaster.EtherCat.Fault.Bad.{rt_send-bad_bus}
use plcmaster.EtherCat.Snapshot.{received, get_input_data-two_passes}
use plcmaster.EtherCat.Staging.{HoldsBytes, ec_ops-IsStaging}
use plcmaster.EtherCat.Start.{IsStarted, start-IsStarted}
use plcmaster.EtherCat.Start.Quiet.{rt_send-start}
use plcmaster.EtherCat.Race.{next_stores, send_from-next_stores}
use plcmaster.EtherCat.Run.{EcEvent, rt, begin, finish, store, run, act}

-- The entries of the list of slaves; the first is the master's.
abbrev pub slave_at : ℕ → Slave
slave_at i =
    if i == 1
    then record {
      state = 8;
      inputs = some 4;
      outputs = some 0;
      input_bytes = 2;
      output_bytes = 2;
      eep_man = 9;
      eep_id = 230;
    }
    else if i == 2
    then record {
      state = 8;
      inputs = none;
      outputs = some 2;
      input_bytes = 0;
      output_bytes = 1;
      eep_man = 9;
      eep_id = 400;
    }
    else if i == 0
    then record {
      state = 8;
      inputs = some 4;
      outputs = some 0;
      input_bytes = 2;
      output_bytes = 3;
      eep_man = 0;
      eep_id = 0;
    }
    else record {
      state = 8;
      inputs = none;
      outputs = none;
      input_bytes = 0;
      output_bytes = 0;
      eep_man = 0;
      eep_id = 0;
    }

-- The context counts the exchanges; an exchange writes the count into the first input byte.
abbrev pub bus : ℕ → Soem ℕ
bus wkc = record {
  blank = 0;
  wipe = λ c. 0;
  init = λ c name. (c, 1);
  config_init = λ c. (c, 2);
  config_map_group = λ c image. (c, (image, 6));
  outputs_wkc = λ c. 1;
  inputs_wkc = λ c. 1;
  configdc = λ c. c;
  slavecount = λ c. 2;
  slave = λ c i. slave_at i;
  set_state = λ c s. c;
  set_hook = λ c i f. c;
  writestate = λ c. c;
  statecheck = λ c s. (c, s);
  readstate = λ c. c;
  send_processdata = λ c image. c + 1;
  receive_processdata = λ c image. (c, (set image 4 (c % 256), wkc));
  close = λ c. c;
}

abbrev pub host : Host
host = record {
  memory = λ k. true;
  thread_made = true;
  perf_freq = 1000;
  print_unsigned = λ n. (48 + n) ∷ [];
}

abbrev pub cfg_at : ℕ → DeviceConfig
cfg_at pos = record {
  name = none;
  model = none;
  backend = none;
  expected_position = pos;
  io_addr = 0;
  vendor_id = 0;
  product_code = 0;
}

abbrev pub desc_of : ℕ → ℕ → ℕ → DeviceDesc
desc_of product rx tx = record {
  model = some (codes "M");
  vendor_id = 9;
  product_code = product;
  rx_bytes = rx;
  tx_bytes = tx;
  tags = [];
  hooks = record { on_init = none; on_update = none; on_shutdown = none };
}

abbrev pub settings : EthercatSettings
settings = record {
  name = codes "main";
  system_name = codes "ec0";
  ifname = codes "eth0";
  dc_clock = true;
  cycle_time_us = 1000;
  period_ns = 1000000;
  spin_threshold_ns = 50000;
  wkc_warn_threshold = 1;
  wkc_fail_threshold = 2;
  warmup_cycles = 0;
  state_check_period_cycles = 200;
  state_check_period_ms = 200;
  device_capacity = 2;
  priority = 1;
  affinity_cpu = 0;
  timer_resolution_ms = 1;
}

abbrev pub no_buffers : Buffers
no_buffers = record { first = none; second = none }

abbrev zeros : ℕ → Buffers
zeros n = record { first = some (replicate n 0); second = some (replicate n 0) }

abbrev pub unmapped : ℕ → DeviceDesc → EthercatDevice
unmapped pos desc = record {
  cfg = cfg_at pos;
  desc = desc;
  slave_index = pos;
  soem_inputs = none;
  soem_outputs = none;
  in_buffers = no_buffers;
  out_buffers = no_buffers;
  in_size = 0;
  out_size = 0;
}

abbrev pub first_bound : EthercatDriver ℕ
first_bound = record {
  settings = settings;
  ctx = 0;
  iomap = some (replicate 6 0);
  iomap_size = 6;
  expected_wkc = 0;
  devices = unmapped 1 (desc_of 230 2 2) ∷ [];
  perf_freq = 1000;
  rt_cycle_us = 1000;
  rt_thread = absent;
  rt_should_run = false;
  rt_is_running = false;
  last_wkc = 0;
  fault_latched = 0;
  ec_state = 0;
  dowkccheck = 0;
  state_check_cycle_ctr = 0;
  active_in_buffer_idx = 0;
  active_out_buffer_idx = 0;
  rt_out_buffer_idx = 0;
  plc_in_buffer_idx = 0;
  in_op = false;
  stats = fresh_stats;
}

abbrev bound : EthercatDriver ℕ
bound = record first_bound {
  devices = unmapped 1 (desc_of 230 2 2) ∷ unmapped 2 (desc_of 400 1 0) ∷ [];
}

abbrev first_device : EthercatDevice
first_device = record (unmapped 1 (desc_of 230 2 2)) {
  soem_inputs = some 4;
  soem_outputs = some 0;
  in_buffers = zeros 2;
  out_buffers = zeros 2;
  in_size = 2;
  out_size = 2;
}

abbrev second_device : EthercatDevice
second_device = record (unmapped 2 (desc_of 400 1 0)) {
  soem_outputs = some 2;
  in_buffers = zeros 0;
  out_buffers = zeros 1;
  in_size = 0;
  out_size = 1;
}

abbrev mapped : EthercatDriver ℕ
mapped = record bound {
  expected_wkc = 3;
  devices = first_device ∷ second_device ∷ [];
  ec_state = 4;
  active_out_buffer_idx = 1;
}

first_bound-IsBound : IsBound first_bound
first_bound-IsBound = record {
  capacity = omega arith;
  distinct = record { apart = go };
  positive = λ k dev at. some_device k dev at;
}
  where
    some_device :
        (k : ℕ) (dev : EthercatDevice)
        → get_elem? first_bound.devices k ≡ some dev
        → dev.slave_index ≢ 0
    some_device zero dev at z =
        let i : 1 ≡ dev.slave_index = ap (λ t. t.slave_index) (some_inj at) in omega arith
    some_device (suc k) dev at z = cc

    go :
        (j k : ℕ) (dev dev' : EthercatDevice)
        → j ≢ k
        → get_elem? first_bound.devices j ≡ some dev
        → get_elem? first_bound.devices k ≡ some dev'
        → dev.slave_index ≢ dev'.slave_index
    go zero zero dev dev' ne e e' = absurd (ne refl)
    go (suc j) k dev dev' ne e e' = λ s. cc
    go zero (suc k) dev dev' ne e e' = λ s. cc

bound_made : ethercat_bind_device (bus 3) first_bound (cfg_at 2) (desc_of 400 1 0) ≡ (bound, true)
unfolding ethercat_bind_device is_bound
bound_made = refl

ethercat_bind_device-IsBound_example : IsBound bound
unfolding ethercat_bind_device is_bound
ethercat_bind_device-IsBound_example =
    ethercat_bind_device-IsBound (bus 3) first_bound (cfg_at 2) (desc_of 400 1 0)
      first_bound-IsBound

mapped_made : ethercat_finalize_mapping (bus 3) host bound ≡ (mapped, true)
unfolding ethercat_finalize_mapping configure_iomap_group0 map_devices map_from map_device matches
    new_buffers reset request_safe_op await_safe_op
mapped_made = refl

bound-AreDistinct : AreDistinct bound.devices
bound-AreDistinct = ethercat_bind_device-IsBound_example.distinct

bus-LaysOut : LaysOut (bus 3)
bus-LaysOut = record {
  keeps = λ c image. refl;
  places = λ c image used. record {
    outputs_inside = λ i at real o. ground arith;
    inputs_inside = λ i at real o. ground arith;
    outputs_apart = λ i j at at' ne real real' o o'. ground arith;
  };
}

bus-KeepsImage : (wkc : ℕ) → KeepsImage (bus wkc)
bus-KeepsImage wkc = record { same = λ c image. length-set image 4 (c % 256) }

ethercat_finalize_mapping-IsFinal_example : IsFinal 6 mapped
ethercat_finalize_mapping-IsFinal_example =
    ethercat_finalize_mapping-IsFinal (bus 3) host bound mapped (replicate 6 0) bus-LaysOut refl
      refl bound-AreDistinct mapped_made

abbrev started : EthercatDriver ℕ
started = record mapped {
  ctx = 4;
  iomap = some (0 ∷ 0 ∷ 0 ∷ 0 ∷ 4 ∷ 0 ∷ []);
  last_wkc = 3;
  ec_state = 8;
  in_op = true;
  rt_should_run = true;
  rt_thread = created;
}

started_made : start (bus 3) true mapped ≡ (started, true)
unfolding start bring_up exchange zero_output_buffers zero_each zero_outputs_of zero_image
    request_op await_op
started_made = refl

started-IsStarted : IsStarted 6 started
started-IsStarted =
    start-IsStarted (bus 3) (bus-KeepsImage 3) mapped started true
      ethercat_finalize_mapping-IsFinal_example.ready
      ethercat_finalize_mapping-IsFinal_example.swapped started_made

started-IsReady : IsReady 6 started
started-IsReady = started-IsStarted.final.ready

started-IsSwapped : IsSwapped started
started-IsSwapped = started-IsStarted.final.swapped

-- The thread enters its loop, the PLC stores outputs, and the thread makes a pass.
abbrev turns : List EcEvent
turns = rt 0 ∷ begin ∷ store 0 (5 ∷ 6 ∷ []) ∷ rt 1000000 ∷ finish ∷ rt 2000000 ∷ []

abbrev staged_device : EthercatDevice
staged_device = record first_device {
  out_buffers = record { first = some (0 ∷ 0 ∷ []); second = some (7 ∷ 8 ∷ []) };
}

-- The PLC has stored 7 and 8 for the first device.
abbrev staged_driver : EthercatDriver ℕ
staged_driver = record started { devices = staged_device ∷ second_device ∷ [] }

staged_made : store_output started 0 (7 ∷ 8 ∷ []) ≡ staged_driver
unfolding store_output
staged_made = refl

staged-IsReady : IsReady 6 staged_driver
staged-IsReady =
    subst (IsReady 6) staged_made (store_output-IsReady started 0 (7 ∷ 8 ∷ []) started-IsReady)

staged-IsSwapped : IsSwapped staged_driver
staged-IsSwapped =
    subst IsSwapped staged_made (store_output-IsSwapped started 0 (7 ∷ 8 ∷ []) started-IsSwapped)

staged-IsDevice : IsDevice staged_driver 0 staged_device 0
staged-IsDevice = record { bound = refl; outputs = refl }

rt_send-cycle_end_example :
    some (outputs_at staged_device 0 (image_of (rt_send (cycle_end staged_driver))))
    ≡ (get_output_data staged_driver 0).1
rt_send-cycle_end_example =
    rt_send-cycle_end 6 staged_driver 0 staged_device 0 staged-IsReady staged-IsSwapped refl
      staged-IsDevice

staged_sent : outputs_at staged_device 0 (image_of (rt_send (cycle_end staged_driver))) ≡ 7 ∷ 8 ∷ []
unfolding cycle_end rt_send copy_out_to_iomap put_outputs
staged_sent = refl

rt_send-plc_cycle_example :
    outputs_at second_device 2
      (image_of (rt_send (cycle_end (store_output (cycle_begin started) 1 (9 ∷ [])))))
    ≡ 9 ∷ []
rt_send-plc_cycle_example =
    rt_send-plc_cycle started 1 second_device (9 ∷ []) started-IsReady started-IsSwapped refl refl
      refl 1 second_device 2 (record { bound = refl; outputs = refl })

send_from-next_stores_example :
    outputs_at first_device 0 (
      image_of (
        send_from
          (load_buffer_index started.rt_out_buffer_idx 0)
          (next_stores started 0 (5 ∷ 6 ∷ []))))
    ≡ 5 ∷ 6 ∷ []
send_from-next_stores_example =
    send_from-next_stores started 0 first_device 0 (5 ∷ 6 ∷ []) started-IsReady started-IsSwapped
      refl (record { bound = refl; outputs = refl }) refl

-- A driver with staged outputs is started again.
restarted-IsDevice : IsDevice (start (bus 3) true staged_driver).0 0 first_device 0
unfolding start bring_up exchange zero_output_buffers zero_each zero_outputs_of zero_image
    request_op await_op
restarted-IsDevice = record { bound = refl; outputs = refl }

rt_send-start_example :
    IsReady 6 (start (bus 3) true staged_driver).0
    × IsSwapped (start (bus 3) true staged_driver).0
    × (outputs_at first_device 0 (image_of (rt_send (start (bus 3) true staged_driver).0))
        ≡ 0 ∷ 0 ∷ [])
rt_send-start_example =
    rt_send-start (bus 3) (bus-KeepsImage 3) staged_driver true 0 first_device 0 staged-IsReady
      staged-IsSwapped restarted-IsDevice

-- The bus answers no more: two passes latch a fault.
abbrev pass_locals : RtLocals
pass_locals = record {
  expected_wkc = 3;
  wkc_warn_threshold = 1;
  wkc_fail_threshold = 2;
  cycle_count = 0;
  deadline = 1000000;
}

abbrev in_loop : EthercatDriver ℕ
in_loop = record staged_driver { rt_is_running = true; rt_thread = looping pass_locals }

in_loop-IsReady : IsReady 6 in_loop
in_loop-IsReady = record {
  image = staged-IsReady.image;
  held = staged-IsReady.held;
  size = staged-IsReady.size;
  laid = staged-IsReady.laid;
}

in_loop-IsSwapped : IsSwapped in_loop
in_loop-IsSwapped = record { swapped = refl; active_in = omega arith; plc_in = omega arith }

-- Two passes, with a cycle of the PLC between them.
abbrev bads : List EcEvent
bads = rt 1000000 ∷ finish ∷ begin ∷ rt 2000000 ∷ []

two_passes : 2 ≤ passes bads
unfolding passes
two_passes = omega arith

abbrev shut_device : EthercatDevice
shut_device = record first_device {
  in_buffers = record { first = some (6 ∷ 0 ∷ []); second = some (5 ∷ 0 ∷ []) };
}

shut-IsDevice : IsDevice (run (bus 0) (begin ∷ []) (run (bus 0) bads in_loop)) 0 shut_device 0
unfolding run act rt_step rt_cycle judge latch bad_cycle next_bad measure next_deadline rt_receive
    copy_iomap_to_in take_inputs watch_state exchange rt_send copy_out_to_iomap put_outputs
    zero_output_buffers zero_each zero_outputs_of zero_image cycle_begin copy_out_buffers
    keep_outputs cycle_end
shut-IsDevice = record { bound = refl; outputs = refl }

all_passes_bad : all_bad (bus 0) bads in_loop ≡ true
unfolding all_bad pass_bad run act rt_step rt_cycle judge latch bad_cycle next_bad measure
    next_deadline rt_receive copy_iomap_to_in take_inputs watch_state exchange rt_send
    copy_out_to_iomap put_outputs zero_output_buffers zero_each zero_outputs_of zero_image
    cycle_begin cycle_end copy_out_buffers keep_outputs
all_passes_bad = refl

rt_send-bad_bus_example :
    outputs_at shut_device 0
      (image_of (rt_send (run (bus 0) (begin ∷ []) (run (bus 0) bads in_loop))))
    ≡ 0 ∷ 0 ∷ []
rt_send-bad_bus_example =
    rt_send-bad_bus (bus 0) bads (begin ∷ []) in_loop 0 shut_device 0 (bus-KeepsImage 0)
      in_loop-IsReady
      (record { locals = pass_locals; thread = refl; threshold = refl; running = refl })
      (omega arith) (omega arith) two_passes all_passes_bad shut-IsDevice

abbrev faulty : EthercatDriver ℕ
faulty = record in_loop { fault_latched = 1 }

faulty-IsDevice :
    IsDevice
      (run (bus 3) (finish ∷ store 0 (5 ∷ 6 ∷ []) ∷ []) faulty)
      0
      (record staged_device {
        out_buffers = record { first = some (5 ∷ 6 ∷ []); second = some (7 ∷ 8 ∷ []) };
      })
      0
unfolding run act cycle_end store_output
faulty-IsDevice = record { bound = refl; outputs = refl }

rt_send-latched_example :
    outputs_at staged_device 0
      (image_of (rt_send (run (bus 3) (finish ∷ store 0 (5 ∷ 6 ∷ []) ∷ []) faulty)))
    ≡ 0 ∷ 0 ∷ []
rt_send-latched_example =
    rt_send-latched (bus 3) (finish ∷ store 0 (5 ∷ 6 ∷ []) ∷ []) faulty 0
      (record staged_device {
        out_buffers = record { first = some (5 ∷ 6 ∷ []); second = some (7 ∷ 8 ∷ []) };
      })
      0 (bus-KeepsImage 3)
      (record {
        image = in_loop-IsReady.image;
        held = in_loop-IsReady.held;
        size = in_loop-IsReady.size;
        laid = in_loop-IsReady.laid;
      })
      (record { set = λ e. omega arith }) faulty-IsDevice

abbrev kept_device : EthercatDevice
kept_device = record staged_device { out_buffers = zeros 2 }

kept_made : get_elem? (cycle_begin in_loop).devices 0 ≡ some kept_device
unfolding cycle_begin copy_out_buffers keep_outputs
kept_made = refl

get_input_data-two_passes_example :
    (get_input_data
      (rt_cycle
        (bus 3)
        2000000
        pass_locals
        (rt_cycle (bus 3) 1000000 pass_locals (cycle_begin in_loop)))
      0).1
    ≡ some
        (slice (received (bus 3) (rt_cycle (bus 3) 1000000 pass_locals (cycle_begin in_loop))) 4 2)
get_input_data-two_passes_example =
    get_input_data-two_passes (bus 3) 1000000 2000000 pass_locals pass_locals in_loop 0 kept_device
      4 (bus-KeepsImage 3) in_loop-IsReady in_loop-IsSwapped kept_made refl

-- What the PLC sees changes in its cycle, from 0 to 6.
two_seen :
    (get_input_data
      (rt_cycle
        (bus 3)
        2000000
        pass_locals
        (rt_cycle (bus 3) 1000000 pass_locals (cycle_begin in_loop)))
      0).1
    ≡ some (6 ∷ 0 ∷ [])
unfolding get_input_data rt_cycle judge latch bad_cycle next_bad measure next_deadline rt_receive
    copy_iomap_to_in take_inputs watch_state exchange rt_send copy_out_to_iomap put_outputs
    zero_output_buffers zero_each zero_outputs_of zero_image cycle_begin copy_out_buffers
    keep_outputs
two_seen = refl

staged-HoldsBytes : HoldsBytes staged_driver
staged-HoldsBytes = record { each = λ k dev at. record { byte = go k dev at } }
  where
    seven : (j b : ℕ) → get_elem? (7 ∷ 8 ∷ []) j ≡ some b → b < 256
    seven zero b e = let i = some_inj e in omega arith
    seven (suc zero) b e = let i = some_inj e in omega arith
    seven (suc (suc j)) b e = cc

    nothing : (j b : ℕ) → get_elem? (0 ∷ []) j ≡ some b → b < 256
    nothing zero b e = let i = some_inj e in omega arith
    nothing (suc j) b e = cc

    go :
        (k : ℕ) (dev : EthercatDevice)
        → get_elem? staged_driver.devices k ≡ some dev
        → (j b : ℕ) → get_elem? (out_bytes dev 1) j ≡ some b
        → b < 256
    go zero dev at j b e = seven j b (ap (λ t. get_elem? (out_bytes t 1) j) (some_inj at) ∙ e)
    go (suc zero) dev at j b e =
        nothing j b (ap (λ t. get_elem? (out_bytes t 1) j) (some_inj at) ∙ e)
    go (suc (suc k)) dev at j b e = cc

ec_ops-IsStaging_example : IsStaging (ec_ops (bus 3) host) staged_driver
ec_ops-IsStaging_example =
    ec_ops-IsStaging (bus 3) host 6 staged_driver staged-IsReady staged-IsSwapped staged-HoldsBytes
