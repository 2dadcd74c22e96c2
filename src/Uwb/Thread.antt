-- ===== src/Uwb/Thread.antt =====
-- The thread of src/uwb.c and its interrupt as steps of a system, interleaved in any order: the
-- line of the DW1000, `uwb_isr` on each rising edge of it (the trigger that port_set_deca_isr of
-- dw1000/src/port.c asks for), the semaphore `uwb_irq_sem`, and the thread between its waits.
pub mod Progress
pub mod History
use tdoa.Base.{ℕ, ◌≡◌, ◌≢◌, Bool, true, false, Option, none, some, List}
use tdoa.Uwb.Types.{UwbEvent}
use tdoa.Uwb.Device.{dwt_checkirq}
use tdoa.Uwb.Radio.{Radio}
use tdoa.Uwb.Loop.{Running, Callback, Loop, on_event, isr}

-- A semaphore of Zephyr with a limit of 1, as K_SEM_DEFINE(uwb_irq_sem, 0, 1) makes it; a take is
-- none if it would have to wait.
pub record Semaphore : Type 1 where
  pub Sem : Type 0
  pub defined : Sem
  pub k_sem_give : Sem → Sem
  pub k_sem_take : Sem → Option Sem

-- What its documentation promises: nothing can be taken at first, a give makes one take succeed,
-- and gives beyond the limit are dropped.
pub record IsBinary (semaphore : Semaphore) : Type 0 where
  pub starts_empty : semaphore.k_sem_take semaphore.defined ≡ none
  pub take-give :
      (s : semaphore.Sem)
      → (t : semaphore.Sem) × (semaphore.k_sem_take (semaphore.k_sem_give s) ≡ some t)
        × (semaphore.k_sem_take t ≡ none)

-- Where the thread stands: at `k_sem_take`, before `dwt_isr`, and before `dwt_checkirq`; or a
-- handler has left an object, and there is nothing more to say of the thread.
pub data Phase : Type 0 where
  waiting serving checking faulted : Phase

module _ (semaphore : Semaphore) where
  pub record System : Type 0 where
    pub line : Bool
    pub sem : semaphore.Sem
    pub phase : Phase
    pub loop : Loop

  unfoldable pub uwb_isr : System → System
  uwb_isr s = record s { sem = semaphore.k_sem_give s.sem }

  -- The thread as `uwb_start` makes it, with a line that is still low.
  abbrev pub system_start : Loop → System
  system_start loop = record { line = false; sem = semaphore.defined; phase = waiting; loop = loop }

  module _ (radio : Radio) where
    pub data Step (s : System) (t : System) : Type 0 where
      -- The device raises its line.
      edge : s.line ≡ false → t ≡ uwb_isr (record s { line = true }) → Step s t
      take :
          (sem : semaphore.Sem)
          → s.phase ≡ waiting
          → semaphore.k_sem_take s.sem ≡ some sem
          → t ≡ record s { sem = sem; phase = serving }
          → Step s t
      -- One `dwt_isr` with the callbacks it makes; it leaves the line up, or clears it.
      serve :
          (cs : List Callback) (line : Bool) (next : Running)
          → s.phase ≡ serving
          → (line ≡ true → s.line ≡ true)
          → isr radio s.loop.running cs ≡ some next
          → t
            ≡ record s { line = line; phase = checking; loop = record (s.loop) { running = next } }
          → Step s t
      serve_faults :
          (cs : List Callback)
          → s.phase ≡ serving
          → isr radio s.loop.running cs ≡ none
          → t ≡ record s { phase = faulted }
          → Step s t
      again :
          s.phase ≡ checking → dwt_checkirq s.line ≢ 0 → t ≡ record s { phase = serving } → Step s t
      done :
          s.phase ≡ checking → dwt_checkirq s.line ≡ 0 → t ≡ record s { phase = waiting } → Step s t
      time_out :
          (wait : ℕ) (next : Running)
          → s.phase ≡ waiting
          → semaphore.k_sem_take s.sem ≡ none
          → on_event radio s.loop.running UwbEvent.timeout ≡ some (wait, next)
          → t ≡ record s { loop = record { timeout_ms = wait; running = next } }
          → Step s t
      time_out_faults :
          s.phase ≡ waiting
          → semaphore.k_sem_take s.sem ≡ none
          → on_event radio s.loop.running UwbEvent.timeout ≡ none
          → t ≡ record s { phase = faulted }
          → Step s t

    pub data Reach (loop : Loop) : System → Type 0 where
      start : Reach loop (system_start loop)
      later : {s t : System} → Reach loop s → Step s t → Reach loop t
