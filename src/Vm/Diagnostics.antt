-- ===== src/Vm/Diagnostics.antt =====
-- internal/vm/diagnostics.go: the place of an error or an instruction, the frames around it, and the
-- text of an error. An offset of -1 is `none`. `frames` is the machine's slice of frames with its top
-- in front; the frame in question is given with its place there, `none` if it is not one of them.
use go_flux.Base.{
  ℕ, ◌+◌, Bool, true, false, Option, none, some, List, [], ◌∷◌, ◌++◌, Bytes, codes, ltb, ◌==◌,
  if◌then◌else◌, ◌≡◌, refl,
}
use go_flux.Base.Int.{pos}
use go_flux.Bytecode.Chunk.{Prototype, source}
use go_flux.Bytecode.Lines.{line_for_offset}
use go_flux.Bytecode.Listing.{lines_of}
use go_flux.Vm.State.{Value, error, Frame, Platform}

pub record FrameInfo : Type 0 where
  pub function : Bytes
  pub source : Bytes
  pub line : ℕ
  pub ip : Option ℕ

pub record TraceInfo : Type 0 where
  pub op : ℕ
  pub function : Bytes
  pub source : Bytes
  pub line : ℕ
  pub ip : Option ℕ

pub record RuntimeError : Type 0 where
  pub message : Bytes
  pub frame : FrameInfo
  pub stack : List FrameInfo
  pub cause : Option Bytes

-- An error of Go: a RuntimeError, or another with its text.
pub data GoError : Type 0 where
  runtime : RuntimeError → GoError
  other : Bytes → GoError

-- `offsetForFrame`
unfoldable pub offset_for_frame : Option Frame → Option ℕ
offset_for_frame none = none
offset_for_frame (some fr) = elim fr.last_op [ some op ↦ some op | none ↦ some fr.ip ]

-- The line of an offset in a function, 0 if there is none.
line_in : Option Prototype → Option ℕ → ℕ
line_in none offset = 0
line_in (some p) none = 0
line_in (some p) (some offset) = line_for_offset (lines_of p) offset

-- The function's source, or its prototype's.
source_in : Bytes → Option Prototype → Bytes
source_in (c ∷ src) p = c ∷ src
source_in [] (some p) = source p
source_in [] none = []

-- `frameInfo`
unfoldable pub frame_info : Option Frame → Option ℕ → FrameInfo
unfolding line_in source_in
frame_info none offset = record { function = []; source = []; line = 0; ip = some 0 }
frame_info (some fr) offset = record {
  function = fr.fn.name;
  source = source_in fr.fn.source fr.fn.proto;
  line = line_in fr.fn.proto offset;
  ip = offset;
}

-- The offset of a frame in a trace: that of the error for the frame where it is.
offset_in_trace : Option ℕ → Option ℕ → ℕ → Frame → Option ℕ
offset_in_trace (some at) (some offset) i fr = if at == i then some offset else fr.last_op
offset_in_trace _ offset i fr = fr.last_op

-- `stackTrace`, from frame `i` on
unfoldable pub stack_trace : List Frame → Option ℕ → Option ℕ → ℕ → List FrameInfo
unfolding offset_in_trace frame_info
stack_trace [] at offset i = []
stack_trace (fr ∷ frs) at offset i =
    frame_info (some fr) (offset_in_trace at offset i fr) ∷ stack_trace frs at offset (i + 1)

-- `newRuntimeError`
unfoldable pub new_runtime_error :
    List Frame → Option ℕ → Option Frame → Option ℕ → Bytes → Option Bytes → RuntimeError
unfolding frame_info stack_trace
new_runtime_error frames at fr offset message cause = record {
  message = message;
  frame = frame_info fr offset;
  stack = stack_trace frames at offset 0;
  cause = cause;
}

-- `trace`: what the hook is called with, if there is one
unfoldable pub trace : Bool → Option Frame → ℕ → Option TraceInfo
unfolding frame_info offset_for_frame
trace false fr op = none
trace true fr op =
    let info = frame_info fr (offset_for_frame fr) in
    some (record {
      op = op;
      function = info.function;
      source = info.source;
      line = info.line;
      ip = info.ip;
    })

module _ (P : Platform) where
  -- The parts of a place: the source with its line, and the function.
  unfoldable pub location : Bytes → ℕ → List Bytes
  location (c ∷ src) line =
      (if ltb 0 line then (c ∷ src) ++ (codes ":" ++ P.format_int (pos line)) else c ∷ src) ∷ []
  location [] line = if ltb 0 line then (codes "line " ++ P.format_int (pos line)) ∷ [] else []

  unfoldable pub inside : Bytes → List Bytes
  inside [] = []
  inside (c ∷ f) = (codes "in " ++ (c ∷ f)) ∷ []

  unfoldable pub join : List Bytes → Bytes
  join [] = []
  join (t ∷ []) = t
  join (t ∷ u ∷ ts) = t ++ (codes " " ++ join (u ∷ ts))

  unfoldable pub placed : Bytes → Bytes → Bytes
  placed [] message = message
  placed (c ∷ loc) message = (c ∷ loc) ++ (codes ": " ++ message)

  -- `Error`
  unfoldable pub error_text : RuntimeError → Bytes
  unfolding location inside join placed
  error_text e =
      placed (join (location e.frame.source e.frame.line ++ inside e.frame.function)) e.message

  abbrev pub text_of : GoError → Bytes
  text_of (runtime e) = error_text e
  text_of (other text) = text

  -- An error that has a place keeps it.
  placed_error : List Frame → Option ℕ → Option Frame → GoError → GoError
  unfolding new_runtime_error offset_for_frame
  placed_error frames at fr (runtime e) = runtime e
  placed_error frames at fr (other text) =
      runtime (new_runtime_error frames at fr (offset_for_frame fr) text (some text))

  error_value : Value → Bytes → Value
  error_value (error e) text = error e
  error_value v text = error text

  -- `wrapError`
  unfoldable pub wrap_error :
      List Frame → Option ℕ → Option Frame → Value → Option GoError → Value × Option GoError
  unfolding placed_error error_value error_text
  wrap_error frames at fr v none = (v, none)
  wrap_error frames at fr v (some e) =
      let e' = placed_error frames at fr e in (error_value v (text_of e'), some e')

  -- `errorf`, with the message made
  unfoldable pub errorf : List Frame → Option ℕ → Option Frame → Bytes → Value × GoError
  unfolding new_runtime_error offset_for_frame error_text
  errorf frames at fr message =
      let e = new_runtime_error frames at fr (offset_for_frame fr) message none in
      (error (error_text e), runtime e)

  error_value_twice : (v : Value) (t u : Bytes) → error_value (error_value v t) u ≡ error_value v t
  unfolding error_value
  error_value_twice (error e) t u = refl
  error_value_twice _ t u = refl

  placed_error_twice :
      (frames outer : List Frame) (at to : Option ℕ) (fr gr : Option Frame) (e : GoError)
      → placed_error outer to gr (placed_error frames at fr e) ≡ placed_error frames at fr e
  unfolding placed_error
  placed_error_twice frames outer at to fr gr (runtime e) = refl
  placed_error_twice frames outer at to fr gr (other t) = refl

  -- An error that wrapError has given its place keeps it, and its value, when it is wrapped again,
  -- for whatever frame that is.
  pub wrap_error_twice :
      (frames outer : List Frame) (at to : Option ℕ) (fr gr : Option Frame) (v : Value)
      (e : GoError)
      → let (w, e') = wrap_error frames at fr v (some e) in wrap_error outer to gr w e' ≡ (w, e')
  unfolding wrap_error
  wrap_error_twice frames outer at to fr gr v e =
      rw (error_value_twice v, placed_error_twice frames outer at to fr gr e) refl
