-- ===== src/Vm/Limit/Frames.antt =====
-- internal/vm/vm.go: the instructions that loop, return or capture, and the counters and frames.
use go_flux.Base.{
  ℕ, zero, suc, Bool, true, false, ◌≡◌, refl, Option, none, some, List, [], ◌∷◌, Bytes, length,
  if◌then◌else◌, if_both, arith, Result, ok, err, ◌>>=◌, ◌∙◌, >>=-eq-ok, ok-injective, insert, ltb,
  ◌==◌,
}
use go_flux.Bytecode.Chunk.{Prototype}
use go_flux.Vm.State.{
  Value, Frame, Vm, Fault, Step, Platform, push, pop, Heap, Object, object, new_object, array_at,
  Iterator, null, fail,
}
use go_flux.Vm.Values.{expect_key_string}
use go_flux.Vm.Upvalues.{captured_at, capture_upvalue, close_upvalues}
use go_flux.Vm.Frames.{read_u8, read_u16, resume, lift, finish_frame}
use go_flux.Vm.Exec.Containers.{
  pop_many, exec_array, pop_fields, exec_object, iter_stepped, exec_iter_next,
}
use go_flux.Vm.Exec.Control.{exec_return, capture_one, capture_all, prototype_const, exec_closure}
use go_flux.Vm.Limit.Keeps.{Same, Keeps, stops, goes, Keeps-bind, Keeps-if, resumes, same}

pub Keeps-bind_eq :
    {n : ℕ} {vm : Vm} {A : Type 0} (m : Step A) {f : A → Step Vm}
    → ((a : A) → m ≡ ok a → Keeps n vm (f a))
    → Keeps n vm (m >>= f)
Keeps-bind_eq (ok a) h = h a refl
Keeps-bind_eq (err s) h = stops

pub lift-eq-ok : {A : Type 0} (m : Result Fault A) {a : A} → lift m ≡ ok a → m ≡ ok a
lift-eq-ok (ok b) h = cc
lift-eq-ok (err f) h = cc

pub moved :
    {vm w : Vm} {vs : List Value} {gs : Object} {us : List ℕ} {h : Heap}
    → Same vm w
    → Same vm (record w { stack = vs; globals = gs; open_upvalues = us; heap = h })
moved s = record { limit = s.limit; count = s.count; frames = s.frames }

pub Same-trans : {u v w : Vm} → Same u v → Same v w → Same u w
Same-trans s t = record {
  limit = t.limit ∙ s.limit;
  count = t.count ∙ s.count;
  frames = t.frames ∙ s.frames;
}

pub pop_many-Same : (n : ℕ) (acc : List Value) (vm : Vm) → Same vm (pop_many n acc vm).1
unfolding pop_many
pop_many-Same zero acc vm = same
pop_many-Same (suc n) acc vm = Same-trans same (pop_many-Same n ((pop vm).0 ∷ acc) (pop vm).1)

pop_fields-Same :
    (host : Platform) (n : ℕ) (m : Object) (vm : Vm) {r : Object × Vm}
    → pop_fields host n m vm ≡ ok r
    → Same vm r.1
unfolding pop_fields
pop_fields-Same host zero m vm e = rw (← ok-injective e) same
pop_fields-Same host (suc n) m vm e =
    let (x, g, f) = >>=-eq-ok (expect_key_string host (pop (pop vm).1).0) _ e in
    Same-trans same (pop_fields-Same host n (insert x (pop vm).0 m) (pop (pop vm).1).1 f)

pub exec_array-Keeps : (p : Prototype) (fr : Frame) (vm : Vm) → Keeps 2 vm (exec_array p fr vm)
unfolding exec_array
exec_array-Keeps p fr vm = Keeps-bind (read_u16 p fr) λ a. resumes (moved (pop_many-Same a.0 [] vm))

object_done :
    (host : Platform) (n : ℕ) (fr : Frame) (vm : Vm) (r : Result Fault (Object × Vm))
    → pop_fields host n [] vm ≡ r
    → Keeps 2 vm (
        lift r >>= λ a.
        let made = new_object a.0 (a.1).heap in
        ok (resume fr (push (object (some made.0) false) (record (a.1) { heap = made.1 }))))
object_done host n fr vm (err f) e = stops
object_done host n fr vm (ok a) e = resumes (moved (pop_fields-Same host n [] vm e))

pub exec_object-Keeps :
    (host : Platform) (p : Prototype) (fr : Frame) (vm : Vm) → Keeps 2 vm (exec_object host p fr vm)
unfolding exec_object
exec_object-Keeps host p fr vm =
    Keeps-bind (read_u16 p fr) λ a. object_done host a.0 a.1 vm (pop_fields host a.0 [] vm) refl

iter_stepped-Keeps :
    (fr : Frame) (vm : Vm) (off i : ℕ) (r : Option (Bytes × Value × Iterator))
    → Keeps 2 vm (iter_stepped fr vm off i r)
unfolding iter_stepped
iter_stepped-Keeps fr vm off i none = resumes same
iter_stepped-Keeps fr vm off i (some (k, v, it)) = resumes same

pub exec_iter_next-Keeps :
    (host : Platform) (p : Prototype) (fr : Frame) (vm : Vm)
    → Keeps 2 vm (exec_iter_next host p fr vm)
unfolding exec_iter_next
exec_iter_next-Keeps host p fr vm = search (Keeps-bind, iter_stepped-Keeps)

close_upvalues-Same : (r : ℕ) (vm : Vm) → Same vm (close_upvalues r vm)
unfolding close_upvalues
close_upvalues-Same r vm = if_both (Same vm) (length (array_at vm.heap r) == 0) same same

-- A frame that ends leaves no more frames than were below it.
pub finish_frame-Keeps : (v : Value) (fr : Frame) (vm : Vm) → Keeps 0 vm (finish_frame v fr vm)
unfolding finish_frame
finish_frame-Keeps v fr vm =
    Keeps-if (ltb (length (close_upvalues fr.locals vm).stack) fr.base) stops (
      Keeps-if (length vm.frames == 0) stops (
        goes (record {
          limit = (close_upvalues-Same fr.locals vm).limit;
          count = (close_upvalues-Same fr.locals vm).count;
          frames = ground (arith, (close_upvalues-Same fr.locals vm).frames);
        })))

pub Keeps-weaken : {vm : Vm} {r : Step Vm} → Keeps 0 vm r → Keeps 2 vm r
Keeps-weaken stops = stops
Keeps-weaken (goes b) =
    goes (record { limit = b.limit; count = b.count; frames = omega (arith, b.frames) })

pub Keeps-after : {u v : Vm} {n : ℕ} {r : Step Vm} → Same u v → Keeps n v r → Keeps n u r
Keeps-after s stops = stops
Keeps-after s (goes b) = goes (record {
  limit = b.limit ∙ s.limit;
  count = b.count ∙ s.count;
  frames = ground (arith, b.frames, s.frames);
})

pub exec_return-Keeps : (fr : Frame) (vm : Vm) → Keeps 2 vm (exec_return fr vm)
unfolding exec_return
exec_return-Keeps fr vm =
    Keeps-if (ltb fr.base (length vm.stack))
      (Keeps-after same (Keeps-weaken (finish_frame-Keeps (pop vm).0 fr (pop vm).1)))
      (Keeps-weaken (finish_frame-Keeps null fr vm))

captured_at-Same : (r s : ℕ) (vm : Vm) (o : Option ℕ) → Same vm (captured_at r s vm o).1
unfolding captured_at
captured_at-Same r s vm (some i) = same
captured_at-Same r s vm none = same

-- What a capture gives has the counters and the frames of the machine before it.
abbrev CaptureKeeps : Vm → Step (Option ℕ × Vm) → Type 0
CaptureKeeps vm (err s) = Unit
CaptureKeeps vm (ok (u, w)) = Same vm w

local_capture :
    (fr : Frame) (slot : ℕ) (vm : Vm) (b : Bool)
    → CaptureKeeps vm (
        if b
        then (let (i, vm1) = capture_upvalue fr.locals slot vm in ok (some i, vm1))
        else fail Fault.upvalue_local_range)
unfolding capture_upvalue
local_capture fr slot vm true = captured_at-Same fr.locals slot vm _
local_capture fr slot vm false = tt

own_capture : (vm : Vm) (m : Step (Option ℕ)) → CaptureKeeps vm (m >>= λ uv. ok (uv, vm))
own_capture vm (ok u) = same
own_capture vm (err s) = tt

capture_one-Keeps :
    (fr : Frame) (is_local slot : ℕ) (vm : Vm) → CaptureKeeps vm (capture_one fr is_local slot vm)
unfolding capture_one
capture_one-Keeps fr is_local slot vm =
    if_both (CaptureKeeps vm) (is_local == 1) (local_capture fr slot vm _) (own_capture vm _)

capture_all-Same :
    (n : ℕ) (p : Prototype) (fr : Frame) (vm : Vm) {r : List (Option ℕ) × Frame × Vm}
    → capture_all n p fr vm ≡ ok r
    → Same vm r.2
unfolding capture_all
capture_all-Same zero p fr vm e = rw (← ok-injective e) same
capture_all-Same (suc n) p fr vm e =
    let (l, h1, e1) = >>=-eq-ok (read_u8 p fr) _ e in
    let (s, h2, e2) = >>=-eq-ok (read_u8 p l.1) _ e1 in
    let (u, h3, e3) = >>=-eq-ok (capture_one s.1 l.0 s.0 vm) _ e2 in
    let (us, h4, e4) = >>=-eq-ok (capture_all n p s.1 u.1) _ e3 in
    let one : CaptureKeeps vm (ok u) = rw h3 at (capture_one-Keeps s.1 l.0 s.0 vm) in
    rw (← ok-injective e4) (Same-trans one (capture_all-Same n p s.1 u.1 h4))

pub exec_closure-Keeps : (p : Prototype) (fr : Frame) (vm : Vm) → Keeps 2 vm (exec_closure p fr vm)
unfolding exec_closure
exec_closure-Keeps p fr vm = Keeps-bind (read_u16 p fr) λ a. Keeps-bind (read_u8 p a.1) λ b.
    Keeps-bind (prototype_const p a.0) λ q.
      Keeps-bind_eq (capture_all b.0 p b.1 vm)
        λ c e. resumes (moved (capture_all-Same b.0 p b.1 vm e))
