-- ===== src/Vm/Calls.antt =====
-- internal/vm/vm.go: a call's frame, from `pushFrame` to `finishFrame`.
use go_flux.Base.{
  ℕ, ◌+◌, ◌-◌, ◌<◌, false, ◌≡◌, refl, sym, ◌∙◌, ap, Option, none, some, List, [], ◌∷◌, ◌++◌, length,
  drop, ltb, ◌==◌, ok, arith, if_both, Bool-cases, leb, inl, inr, ok-injective, length-append,
}
use go_flux.Vm.State.{Value, Function, Frame, Vm, push}
use go_flux.Bytecode.Chunk.{Prototype}
use go_flux.Vm.Upvalues.{close_upvalues}
use go_flux.Vm.Frames.{push_frame, push_proto, finish_frame}

∷-injective {ℓ} : {A : Type ℓ} {x y : A} {xs ys : List A} → x ∷ xs ≡ y ∷ ys → (x ≡ y) × (xs ≡ ys)
∷-injective h = (cc, cc)

drop-append {ℓ} : {A : Type ℓ} (xs ys : List A) → drop (length xs) (xs ++ ys) ≡ ys
drop-append [] ys = refl
drop-append (x ∷ xs) ys = drop-append xs ys

-- Closing upvalues leaves the stack and the frames.
close_upvalues-stack :
    (r : ℕ) (vm : Vm)
    → ((close_upvalues r vm).stack ≡ vm.stack) × ((close_upvalues r vm).frames ≡ vm.frames)
unfolding close_upvalues
close_upvalues-stack r vm =
    if_both (λ (w : Vm). (w.stack ≡ vm.stack) × (w.frames ≡ vm.frames)) _ (refl, refl) (refl, refl)

-- The frame pushed remembers the height of its caller's stack.
push_proto_base :
    (fn : Function) (o : Option Prototype) (vm w : Vm) (fr : Frame) (below : List Frame)
    → push_proto fn o vm ≡ ok w
    → w.frames ≡ fr ∷ below
    → (fr.base ≡ length vm.stack) × (below ≡ vm.frames)
unfolding push_proto
push_proto_base fn none vm w fr below e f = cc
push_proto_base fn (some p) vm w fr below e f =
    elim (Bool-cases (leb vm.max_frames (length vm.frames))) [
      | inl l ↦ let q = rw (push_proto, l) at e in cc
      | inr l ↦
          let q = rw (push_proto, l) at e in
          let g = ap (λ (v : Vm). v.frames) (ok-injective q) ∙ f in
          (sym (ap (λ (x : Frame). x.base) (∷-injective g).0), sym (∷-injective g).1)
    ]

-- A call leaves its caller's stack as it was, with the value returned on top. Let `fr` be the frame
-- that `pushFrame` puts above the frames of `vm`, of which there is one at least. When it ends, with
-- those frames below it and with any values `temps` left above its caller's, `finishFrame` goes on
-- with the caller's stack, the value on top of it, and the caller's frames.
pub finish_frame-push_frame :
    (fn : Function) (vm w end : Vm) (fr : Frame) (ret : Value) (temps : List Value)
    → push_frame fn vm ≡ ok w
    → w.frames ≡ fr ∷ vm.frames
    → end.frames ≡ vm.frames
    → 0 < length vm.frames
    → end.stack ≡ temps ++ vm.stack
    → (v : Vm) × (finish_frame ret fr end ≡ ok v)
      × (v.stack ≡ ret ∷ vm.stack)
      × (v.frames ≡ vm.frames)
unfolding push_frame finish_frame
finish_frame-push_frame fn vm w end fr ret temps p f g h s =
    let (b, _) = push_proto_base fn fn.proto vm w fr vm.frames p f in
    let (cs, cf) = close_upvalues-stack fr.locals end in
    let n : length (close_upvalues fr.locals end).stack ≡ length temps + length vm.stack =
      ap length (cs ∙ s) ∙ length-append temps vm.stack in
    let high : ltb (length (close_upvalues fr.locals end).stack) fr.base ≡ false =
      ground (arith, n, b) in
    let caller : (length end.frames == 0) ≡ false = rw g (ground (arith, h)) in
    let d : length (close_upvalues fr.locals end).stack - fr.base ≡ length temps =
      omega (arith, n, b) in
    let closed = close_upvalues fr.locals end in
    (
      push ret (record closed { stack = drop (length closed.stack - fr.base) closed.stack }),
      rw (finish_frame, high, caller) refl,
      ap (λ xs. ret ∷ xs) (rw (d, cs, s) (drop-append temps vm.stack)),
      cf ∙ g,
    )
