-- ===== src/Api/Calls.antt =====
-- api.go: `VM`, whose calls run one at a time behind a busy flag. The goroutine of a CallAsync is a
-- stage, and what it and its host do are steps, in any order: the call runs, sends its result,
-- gives the flag back and closes the channel. What the context says at the goroutine's start is
-- known when the call is made. Disassemble and Duplicate hold the flag while they read the machine.
-- The mutex, which is held for a test and a store only, is the step itself. After an error the
-- machine may be in any state, since the model of a run gives none.
use go_flux.Base.{
  ℕ, suc, ◌+◌, Bool, true, false, Option, none, some, List, [], ◌∷◌, ◌++◌, Bytes, ◌≡◌, get_elem?,
  set, Result, if◌then◌else◌,
}
use go_flux.Base.Int.{ℤ, pos, negsuc}
use go_flux.Vm.State.{Value, null, error, Vm, Fault, Platform, returned, failed}
use go_flux.Vm.Run.{call, set_instruction_limit}
use go_flux.Api.Values.{VmValue}

-- The errors of a call: the machine is busy, the context has ended, the run has failed, or an error
-- value is taken for an error.
pub data CallError : Type 0 where
  busy_error context_error : CallError
  run_error : Fault → CallError
  error_result : Bytes → CallError

-- `VmCallResult`
pub record CallResult : Type 0 where
  pub value : VmValue
  pub err : Option CallError

abbrev pub no_value : VmValue
no_value = record { v = null; owner = none }

-- What the goroutine of a call is about to do: run the function by its name on its arguments, unless
-- its context has ended; give the flag back; close the channel; nothing.
pub data Stage : Type 0 where
  running : Bool → Bytes → List Value → Stage
  sent released over : Stage

-- `VmCallFuture`: the stage, the channel's buffer, and how many results were put in it.
pub record Call : Type 0 where
  pub stage : Stage
  pub buffer : Option CallResult
  pub sends : ℕ

-- `VM`; `readers` counts the Disassemble and Duplicate that read the machine.
pub record HostVm : Type 0 where
  pub core : Vm
  pub propagate_errors : Bool
  pub busy : Bool
  pub calls : List Call
  pub readers : ℕ

unfoldable pub new_host_vm : Vm → HostVm
new_host_vm core = record {
  core = core;
  propagate_errors = false;
  busy = false;
  calls = [];
  readers = 0;
}

-- `SetErrorResultAsError`, and `SetInstructionLimit`, where a limit below 0 is none
unfoldable pub set_error_result_as_error : Bool → HostVm → HostVm
set_error_result_as_error enable h = record h { propagate_errors = enable }

abbrev pub limit_of : ℤ → ℕ
limit_of (pos n) = n
limit_of (negsuc n) = 0

unfoldable pub set_host_limit : ℤ → HostVm → HostVm
unfolding set_instruction_limit
set_host_limit limit h = record h { core = set_instruction_limit (limit_of limit) h.core }

abbrev pub error_call : CallError → CallResult
error_call e = record { value = no_value; err = some e }

-- `CallAsync`: a future with an error while the machine is busy, or one whose goroutine starts
unfoldable pub call_async : Bool → Bytes → List Value → HostVm → HostVm
call_async ended name args h =
    if h.busy
    then record h {
      calls =
          h.calls ++ record { stage = over; buffer = some (error_call busy_error); sends = 1 } ∷ [];
    }
    else record h {
      busy = true;
      calls = h.calls ++ record { stage = running ended name args; buffer = none; sends = 0 } ∷ [];
    }

-- `ch <- r`
abbrev pub send : CallResult → Call → Call
send r c = record c { stage = sent; buffer = some r; sends = c.sends + 1 }

-- The result of a call that returns a value; the owner of the values is 0 here.
unfoldable pub value_result : Bool → Value → CallResult
value_result propagate v = record {
  value = record { v = v; owner = some 0 };
  err = elim v [ error s ↦ if propagate then some (error_result s) else none | _ ↦ none ];
}

abbrev pub put_call : ℕ → Call → HostVm → HostVm
put_call i c h = record h { calls = set h.calls i c }

-- `Await` of a call whose channel has a result takes it; a closed channel that is empty gives the
-- zero value; and another blocks.
abbrev pub await_from : Option CallResult → Stage → Call → Option (CallResult × Call)
await_from (some r) stage c = some (r, record c { buffer = none })
await_from none over c = some (record { value = no_value; err = none }, c)
await_from none _ c = none

unfoldable pub await : Call → Option (CallResult × Call)
await c = await_from c.buffer c.stage c

module _ (P : Platform) (native : ℕ → Vm → List Value → Result Bytes (Value × Vm)) where
  -- A step of the host or of a goroutine
  pub data Step (h : HostVm) : HostVm → Type 0 where
    calls_async :
        (ended : Bool) (name : Bytes) (args : List Value) → Step h (call_async ended name args h)
    cancelled :
        {name : Bytes} {args : List Value} (i : ℕ) (c : Call)
        → get_elem? h.calls i ≡ some c
        → c.stage ≡ running true name args
        → Step h (put_call i (send (error_call context_error) c) h)
    returns :
        {name : Bytes} {args : List Value} {v : Value} {vm : Vm} (i : ℕ) (c : Call) (fuel : ℕ)
        → get_elem? h.calls i ≡ some c
        → c.stage ≡ running false name args
        → call P native fuel name args h.core ≡ some (returned v vm)
        → Step h (put_call i (send (value_result h.propagate_errors v) c) (record h { core = vm }))
    fails :
        {name : Bytes} {args : List Value} {f : Fault} (i : ℕ) (c : Call) (fuel : ℕ) (vm : Vm)
        → get_elem? h.calls i ≡ some c
        → c.stage ≡ running false name args
        → call P native fuel name args h.core ≡ some (failed f)
        → Step h (put_call i (send (error_call (run_error f)) c) (record h { core = vm }))
    releases :
        (i : ℕ) (c : Call)
        → get_elem? h.calls i ≡ some c
        → c.stage ≡ sent
        → Step h (put_call i (record c { stage = released }) (record h { busy = false }))
    closes :
        (i : ℕ) (c : Call)
        → get_elem? h.calls i ≡ some c
        → c.stage ≡ released
        → Step h (put_call i (record c { stage = over }) h)
    awaits :
        {r : CallResult} (i : ℕ) (c d : Call)
        → get_elem? h.calls i ≡ some c
        → await c ≡ some (r, d)
        → Step h (put_call i d h)
    reads : h.busy ≡ false → Step h (record h { busy = true; readers = h.readers + 1 })
    has_read : (k : ℕ) → h.readers ≡ suc k → Step h (record h { busy = false; readers = k })
    -- `SetErrorResultAsError`, `SetInstructionLimit` and whatever else the host does to the machine
    configures :
        (core : Vm) (propagate : Bool)
        → Step h (record h { core = core; propagate_errors = propagate })

  -- The states that a new machine gets to
  pub data Reach (start : Vm) : HostVm → Type 0 where
    begins : Reach start (new_host_vm start)
    later : {h g : HostVm} → Reach start h → Step h g → Reach start g
