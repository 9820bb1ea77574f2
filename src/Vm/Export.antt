-- ===== src/Vm/Export.antt =====
-- internal/vm/export.go: what other packages use of the machine, beside the routines of Vm/Values.
use go_flux.Base.{ℕ, Option, none, some, List, [], ◌∷◌, Bytes}
use go_flux.Vm.State.{Value, error, Frame, Vm, Platform}
use go_flux.Vm.Diagnostics.{GoError, other, errorf}

-- `currentFrame` and its place, if there are frames
abbrev pub current_frame : List Frame → Option Frame
current_frame [] = none
current_frame (fr ∷ below) = some fr

abbrev pub current_place : List Frame → Option ℕ
current_place [] = none
current_place (fr ∷ below) = some 0

-- `RuntimeErrorf`, with the message made; `none` is a nil machine
unfoldable pub runtime_errorf : Platform → Option Vm → Bytes → Value × GoError
unfolding errorf
runtime_errorf P none message = (error message, other message)
runtime_errorf P (some vm) message =
    errorf P vm.frames (current_place vm.frames) (current_frame vm.frames) message
