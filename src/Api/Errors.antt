-- ===== src/Api/Errors.antt =====
-- api.go: `RuntimeError` and `convertRuntimeError`, errors as the host gets them, and `ArgError`.
use go_flux.Base.{
  ℕ, ◌≡◌, refl, Option, List, [], ◌∷◌, ◌++◌, Bytes, codes, ltb, Bool-cases, inl, inr, if◌then◌else◌,
}
use go_flux.Base.Int.{pos}
use go_flux.Vm.State.{Platform}
use go_flux.Vm.Diagnostics.{
  FrameInfo, GoError, runtime, other, error_text, join, location, inside, placed, text_of,
}

pub record FrameTrace : Type 0 where
  pub function : Bytes
  pub source : Bytes
  pub line : ℕ
  pub ip : Option ℕ

pub record RuntimeError : Type 0 where
  pub message : Bytes
  pub frame : FrameTrace
  pub stack : List FrameTrace
  pub cause : Option Bytes

-- An error that the host gets: a RuntimeError, or another with its text.
pub data HostError : Type 0 where
  runtime_error : RuntimeError → HostError
  plain : Bytes → HostError

-- `frameTraceFromVM` and `stackTraceFromVM`
abbrev pub frame_trace_from_vm : FrameInfo → FrameTrace
frame_trace_from_vm info = record {
  function = info.function;
  source = info.source;
  line = info.line;
  ip = info.ip;
}

abbrev pub stack_trace_from_vm : List FrameInfo → List FrameTrace
stack_trace_from_vm [] = []
stack_trace_from_vm (info ∷ stack) = frame_trace_from_vm info ∷ stack_trace_from_vm stack

unfoldable pub convert_runtime_error : GoError → HostError
convert_runtime_error (runtime e) = runtime_error (record {
  message = e.message;
  frame = frame_trace_from_vm e.frame;
  stack = stack_trace_from_vm e.stack;
  cause = e.cause;
})
convert_runtime_error (other text) = plain text

-- `ArgError`, an empty text where the source leaves a field out
pub record ArgError : Type 0 where
  pub name : Bytes
  pub want : Bytes
  pub got : Bytes

module _ (quote : Bytes → Bytes) where
  -- `Error` of an ArgError
  unfoldable pub arg_error_text : ArgError → Bytes
  arg_error_text e = elim e.name [
    | [] ↦ codes "argument error"
    | c ∷ cs ↦ elim e.want [
      | [] ↦ codes "argument error"
      | w ∷ ws ↦ elim e.got [
        | [] ↦ codes "argument " ++ (quote e.name ++ (codes ": want " ++ e.want))
        | g ∷ gs ↦
            codes "argument "
            ++ (quote e.name ++ (codes ": want " ++ (e.want ++ (codes ", got " ++ e.got))))
      ]
    ]
  ]

module _ (P : Platform) where
  -- The first part of a place: the source and the line, as far as there are any.
  unfoldable pub source_part : Bytes → ℕ → List Bytes
  source_part [] line = if ltb 0 line then (codes "line " ++ P.format_int (pos line)) ∷ [] else []
  source_part (c ∷ src) line =
      if ltb 0 line
      then ((c ∷ src) ++ (codes ":" ++ P.format_int (pos line))) ∷ []
      else (c ∷ src) ∷ []

  unfoldable pub function_part : Bytes → List Bytes
  function_part [] = []
  function_part (c ∷ f) = (codes "in " ++ (c ∷ f)) ∷ []

  unfoldable pub at_place : Bytes → Bytes → Bytes
  at_place [] message = message
  at_place (c ∷ loc) message = (c ∷ loc) ++ (codes ": " ++ message)

  -- `Error` of a RuntimeError
  unfoldable pub runtime_error_text : RuntimeError → Bytes
  unfolding source_part function_part at_place
  runtime_error_text e =
      at_place (join P (source_part e.frame.source e.frame.line ++ function_part e.frame.function))
        e.message

  abbrev pub host_error_text : HostError → Bytes
  host_error_text (runtime_error e) = runtime_error_text e
  host_error_text (plain text) = text

  source_part_lem : (src : Bytes) (line : ℕ) → source_part src line ≡ location P src line
  unfolding source_part location
  source_part_lem [] line = refl
  source_part_lem (c ∷ src) line = elim (Bool-cases (ltb 0 line)) [
    | inl e ↦ rw (source_part, location, e) refl
    | inr e ↦ rw (source_part, location, e) refl
  ]

  function_part_lem : (f : Bytes) → function_part f ≡ inside P f
  unfolding function_part inside
  function_part_lem [] = refl
  function_part_lem (c ∷ f) = refl

  at_place_lem : (loc message : Bytes) → at_place loc message ≡ placed P loc message
  unfolding at_place placed
  at_place_lem [] message = refl
  at_place_lem (c ∷ loc) message = refl

  -- The host's error has the text of the machine's error that it is made of: the message behind the
  -- same place.
  pub convert_runtime_error-text :
      (e : GoError) → host_error_text (convert_runtime_error e) ≡ text_of P e
  unfolding convert_runtime_error runtime_error_text error_text
  convert_runtime_error-text (other text) = refl
  convert_runtime_error-text (runtime e) =
      rw
        (
          runtime_error_text,
          error_text,
          source_part_lem e.frame.source e.frame.line,
          function_part_lem e.frame.function,
          at_place_lem,
        )
        refl
