-- ===== src/Tests/Thread.antt =====
-- The thread over a semaphore that is a bit, the functions of the port, and the SPI rates of a start.
use tdoa.Base.{length, List, ◌∷◌, [], ◌≡◌, refl, Bool, true, false, none, some, Option, ℤ, pos}
use tdoa.Uwb.Core.{Core, core_boot, anchor_algorithm, uwb_init}
use tdoa.Uwb.Core.Rates.{spi_after, AtSlowRate, uwb_init-AtSlowRate}
use tdoa.Uwb.Device.{start_rx_immediate}
use tdoa.Uwb.Radio.{Call}
use tdoa.Uwb.Tag.{tag_on_event}
use tdoa.Uwb.Loop.{
  Running, Loop, as_tag, tag_boot, tx_done_callback, rx_timeout_callback, callback_event, on_event,
  isr, uwb_start,
}
use tdoa.Uwb.Thread.{
  waiting, Semaphore, IsBinary, serving, System, uwb_isr, system_start, Step, edge, take, serve,
  again, done, Reach, start, later,
}
use tdoa.Uwb.Thread.Progress.{uwb_isr-served}
use tdoa.Tests.Ram.{rubbish, rubbish-IsReadable, ram}
use tdoa.Tests.Anchor.{fixed, fixed-IsSound, settings}
use tdoa.Tests.Boot.{working}
use tdoa.Tests.Echo.{echo, idle}

abbrev take_bit : Bool → Option Bool
take_bit true = some false
take_bit false = none

abbrev bit : Semaphore
bit = record { Sem = Bool; defined = false; k_sem_give = λ _. true; k_sem_take = take_bit }

bit-IsBinary : IsBinary bit
bit-IsBinary = record { starts_empty = refl; take-give = λ _. (false, refl, refl) }

abbrev anchor_core : Core
anchor_core = record core_boot { algorithm = anchor_algorithm; uwb_config = settings }

abbrev raised : System bit
raised = record (system_start bit (uwb_start fixed anchor_core)) { line = true; sem = true }

raised-Reach : Reach bit fixed (uwb_start fixed anchor_core) raised
unfolding uwb_isr
raised-Reach = later start (edge refl refl)

uwb_isr-served_example :
    ((t : System bit) × Step bit fixed raised t)
    × ((t : System bit) → Step bit fixed raised t → t.phase ≡ serving)
uwb_isr-served_example =
    uwb_isr-served bit bit-IsBinary fixed fixed-IsSound anchor_core refl raised-Reach refl refl

uwb_init-AtSlowRate_example :
    (r : ℤ) × (after : Core) × (uwb_init ram rubbish working core_boot ≡ some (r, after))
    × (length after.uwb_config.address ≡ 8)
    × (AtSlowRate echo after.setup idle)
    × (r ≡ pos 0 → (spi_after echo after.setup idle).frequency ≡ 8000000)
unfolding AtSlowRate
uwb_init-AtSlowRate_example =
    uwb_init-AtSlowRate ram rubbish rubbish-IsReadable echo idle working core_boot refl tt

-- A tag, and an interrupt that takes two calls of `dwt_isr`
abbrev tag_loop : Loop
tag_loop = record { timeout_ms = 0; running = as_tag (record tag_boot { config = settings }) }

abbrev after_calls : List Call → Running
after_calls calls = as_tag (record tag_boot { config = settings; calls = calls })

abbrev listen : Call
listen = Call.rx_enable start_rx_immediate

abbrev two_calls : System bit
two_calls = record {
  line = false;
  sem = false;
  phase = waiting;
  loop = record { timeout_ms = 0; running = after_calls (listen ∷ listen ∷ []) };
}

two_calls-Reach : Reach bit fixed tag_loop two_calls
unfolding uwb_isr isr on_event callback_event tag_on_event
two_calls-Reach =
    later
      (later
        (later
          (later (later (later start (edge refl refl)) (take false refl refl refl)) (
            serve (tx_done_callback ∷ []) true (after_calls (listen ∷ [])) refl (λ e. e) refl refl))
          (again refl (λ e. cc) refl))
        (serve (rx_timeout_callback ∷ []) false (after_calls (listen ∷ listen ∷ [])) refl (λ e. cc)
          refl refl))
      (done refl refl refl)
