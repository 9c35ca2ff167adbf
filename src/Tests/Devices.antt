-- ===== src/Tests/Devices.antt =====
-- Examples of the interrupt controller's driver and of the disk's printer.
use qrisc_v.Base.{ℕ, ◌+◌, ◌≡◌, true, false, arith, some, if◌then◌else◌}
use qrisc_v.Base.{List, [], ◌∷◌, ◌++◌, Bool, Bool-cases, inl, inr, ap, sym, ◌∙◌}
use qrisc_v.Mmio.{Trace, store, load}
use qrisc_v.Intc.{
  Chip, Kernel, no_irq, xintc_get_irq, xintc_read, handle_loop, xil_intc_irq_handler,
}
use qrisc_v.Base.{none}
use qrisc_v.Base.Int.{pos, negsuc}
use qrisc_v.Intc.Init.{Tree, Driver}
use qrisc_v.Base.{◌⊎◌, refl}
use qrisc_v.Intc.{IrqData, intc_enable_or_unmask, xintc_write}
use qrisc_v.Intc.Device.{Sets, enabled, pending, operations-Sets}
use qrisc_v.Intc.{xintc_map, cons_handled, intc_ack, intc_mask_ack}
use qrisc_v.Intc.Device.Flows.{
  FlowHandlers, IsDocumented, handle_mapped, FlowEnd, flow_of, handle_mapped-FlowEnd,
}
use qrisc_v.Intc.Device.Flows.Low.{IsLow}
use qrisc_v.Intc.Device.Flows.Root.{IsHandled, handle_loop_effect}
use qrisc_v.Base.{◌-◌}
use qrisc_v.Intc.Reported.{vector_of, served, IsLowest, IsIdle, xintc_get_irq-Lowest}
use qrisc_v.Disk.{Calls, Chunks, copy_out}
use qrisc_v.Disk.Copy.{InOrder, copy_out-InOrder}
use qrisc_v.Intc.Drain.{Drained, IsProgress, xil_intc_irq_handler-Drained}

-- Interrupt 1 is pending until the first write to the controller.
abbrev is_acked : Trace → Bool
is_acked [] = false
is_acked (store a v ∷ t) = true
is_acked (load a v ∷ t) = is_acked t

abbrev kernel : Kernel
kernel = record {
  answer = λ t a. if is_acked t then no_irq else 1;
  find_mapping = λ domain hw. hw + 16;
  handle_one = λ irq t. store 0x900c 2 ∷ t;
}

abbrev chip : Chip
chip = record { base = 0x9000; root_domain = 1; intr_mask = 0 }

abbrev work : Trace → ℕ
work t = if is_acked t then 0 else 1

progress : IsProgress kernel false chip (λ t. Unit) work
unfolding xintc_get_irq xintc_read
progress t t' p inv h ne = elim (Bool-cases (is_acked t)) [
  | inl acked ↦ absurd (ne (sym (ap (λ (r : ℕ × Trace). r.0) h) ∙ rw acked))
  | inr waiting ↦ (tt, rw waiting (omega arith))
]

-- The parent controller is told at a register of its own.
abbrev entering : Trace → Trace
entering t = load 0x8000 0 ∷ t

xil_intc_irq_handler-Drained_example :
    (ps : List ℕ) × (u : Trace) × (handle_loop kernel false chip 2 (entering []) ≡ some (ps, u))
    × (xil_intc_irq_handler kernel false chip entering (λ t. store 0x8000 1 ∷ t) 2 []
        ≡ some (ps, store 0x8000 1 ∷ u))
    × Drained kernel false chip (entering []) ps u
xil_intc_irq_handler-Drained_example =
    xil_intc_irq_handler-Drained kernel false chip (λ t. Unit) work progress entering
      (λ t. store 0x8000 1 ∷ t) 2 [] tt (omega arith)

-- A controller with four inputs and no parent.
abbrev tree : Tree
tree = record {
  allocates = true;
  iomap = 0x9000;
  num_intr_inputs = (pos 0, 4);
  kind_of_intr = (negsuc 21, 0);
  add_domain = λ n. n + 1;
  parent = false;
  parent_irq = 0;
}

abbrev driver : Driver
driver = record { xintc_irqc = none; xintc_is_be = false; io = []; hook = none; domains = [] }

-- Every write takes all of its bytes.
abbrev calls : Calls
calls = record { opens = true; maps = true; write = λ k off len. len }

copy_out-InOrder_example :
    (cs : Chunks) × (copy_out calls 9 0 4194300 ≡ some cs) × InOrder calls 0 4194300 cs
copy_out-InOrder_example =
    copy_out-InOrder calls (λ k off len. omega arith) 9 0 4194300 (omega arith) (omega arith)

-- Input 2 is high, and was enabled.
abbrev high_line : Trace → ℕ
high_line t = 4

abbrev controller_chip : Chip
controller_chip = record { base = 0x90000000; root_domain = 0; intr_mask = 0 }

abbrev controller : Kernel
controller = record {
  answer = λ t a. vector_of (served 0x90000000 high_line t);
  find_mapping = λ dom hw. hw + 16;
  handle_one = λ irq t. t;
}

abbrev input_2 : IrqData
input_2 = record { hwirq = 2; is_level = true }

abbrev running : Trace
running = intc_enable_or_unmask false 0x90000000 input_2 []

operations-Sets_example : Sets 0x90000000 high_line running input_2 2
operations-Sets_example =
    operations-Sets 0x90000000 high_line running input_2 2 (omega arith) (omega arith)

xintc_get_irq-Lowest_example :
    ((j : ℕ) × IsLowest (served 0x90000000 high_line running) j
      × ((xintc_get_irq controller false controller_chip running).0 ≡ j + 16))
    ⊎ (IsIdle (served 0x90000000 high_line running)
        × ((xintc_get_irq controller false controller_chip running).0 ≡ no_irq))
xintc_get_irq-Lowest_example =
    xintc_get_irq-Lowest controller controller_chip high_line (λ t. refl) running

-- The enabled input is the one that is reported.
reported_example : (xintc_get_irq controller false controller_chip running).0 ≡ 18
unfolding xintc_get_irq xintc_read intc_enable_or_unmask xintc_write pending enabled
reported_example = refl

-- A level interrupt, whose handler writes to another device and reads it.
abbrev flows : FlowHandlers
flows = record {
  handle_edge_irq = λ c d act t. act (c.irq_ack d t);
  handle_level_irq = λ c d act t. c.irq_unmask d (act (c.irq_mask_ack d t));
}

flows-IsDocumented : IsDocumented flows
flows-IsDocumented c d act t = (refl, refl)

abbrev device_accesses : Trace
device_accesses = load 0x92000000 65 ∷ store 0x94000008 1 ∷ []

handle_mapped-FlowEnd_example :
    FlowEnd 0x90000000 high_line 2 1
      (omega arith)
      (omega arith)
      device_accesses
      running
      (refl, refl, refl, refl, tt)
      (flow_of controller_chip 2)
      (handle_mapped flows 0x90000000
        (xintc_map controller_chip 2)
        2
        (λ at. device_accesses ++ at)
        running)
handle_mapped-FlowEnd_example =
    handle_mapped-FlowEnd 0x90000000 high_line 2 1 (omega arith) (omega arith) device_accesses
      running (refl, refl, refl, refl, tt) flows flows-IsDocumented controller_chip

-- Input 2 was high at the first access only, and was enabled then.
abbrev pulse : Trace → ℕ
pulse [] = 4
pulse (e ∷ t) = 0

abbrev waiting : Trace
waiting = store 0x90000010 4 ∷ store 0x9000000c 4 ∷ []

abbrev serving : Kernel
serving = record {
  answer = λ t a. vector_of (served 0x90000000 pulse t);
  find_mapping = λ dom hw. hw + 16;
  handle_one = λ irq t.
      handle_mapped flows 0x90000000 (xintc_map controller_chip (irq - 16)) (irq - 16)
        (λ at. device_accesses ++ at) t;
}

unmapped : (j : ℕ) → j + 16 - 16 ≡ j
unmapped j = omega arith

serving-IsHandled : IsHandled serving controller_chip pulse flows (λ j t. device_accesses)
serving-IsHandled = record {
  device = λ t. refl;
  documented = flows-IsDocumented;
  mapped = λ j h. omega (arith, h);
  handles = λ j t h. rw (unmapped j);
  elsewhere = λ j t. (refl, refl, refl, refl, tt);
}

waiting-IsLow : IsLow 0x90000000 pulse waiting
waiting-IsLow [] = refl
waiting-IsLow (e ∷ more) = refl

handle_loop_effect_example :
    (ps : List ℕ) × (u : Trace) × (handle_loop serving false controller_chip 5 waiting
      ≡ some (ps, u))
    × Drained serving false controller_chip waiting ps u
    × IsIdle (served 0x90000000 pulse u)
handle_loop_effect_example =
    handle_loop_effect serving controller_chip pulse flows (λ j t. device_accesses)
      serving-IsHandled waiting waiting-IsLow

-- One interrupt is handled, the one that input 2 is mapped to.
one_handled_example :
    (u : Trace) × (handle_loop serving false controller_chip 5 waiting ≡ some (18 ∷ [], u))
unfolding handle_loop cons_handled xintc_get_irq xintc_read handle_mapped xintc_map intc_ack
    intc_mask_ack intc_enable_or_unmask xintc_write pending enabled served
one_handled_example = (_, refl)
