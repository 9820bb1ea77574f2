-- ===== src/Bytecode/Total.antt =====
-- internal/bytecode/disasm.go: the listing ends.
use go_flux.Base.{
  ℕ, zero, suc, ◌+◌, ◌*◌, ◌-◌, ◌≤◌, ◌<◌, ◌≡◌, refl, arith, Option, none, some, ◌∷◌, Bytes, codes,
  length, get_elem?, get_elem?-eq-some, Option-cases, Bool, inl, inr, Result, ok, err, ◌>>=◌,
}
use go_flux.Bytecode.Opcode.{Op, decode}
use go_flux.Bytecode.Chunk.{
  function, Consts, empty, entry, Prototype, prototype, code, consts, const_at,
}
use go_flux.Bytecode.Disasm.{
  Format, DisasmError, Reading, read_u8, read_u16, read_upvalues, named, one_byte, two_bytes,
  const_text, operands_of,
}
use go_flux.Bytecode.Listing.{
  Writer, Written, chunk_from, chunk_rest, list_prototype, list_consts, unless_visited, child_name,
  and_then,
}

-- A reading, if it succeeds, ends where it began or behind.
abbrev Onward : {A : Type 0} → ℕ → Reading A → Type 0
Onward ip (err e) = Unit
Onward ip (ok (a, next)) = ip ≤ next

bind-Onward :
    {A B : Type 0} (ip : ℕ) (r : Reading A) (f : A × ℕ → Reading B)
    → Onward ip r
    → ((a : A) (next : ℕ) → Onward next (f (a, next)))
    → Onward ip (r >>= f)
bind-Onward {B = B} ip (err e) f h k = tt
bind-Onward {B = B} ip (ok (a, next)) f h k = weaken (f (a, next)) (k a next)
  where
    weaken : (r : Reading B) → Onward next r → Onward ip r
    weaken (err e) g = tt
    weaken (ok (b, last)) g = omega arith

read_u8-Onward : (bs : Bytes) (ip : ℕ) → Onward ip (read_u8 bs ip)
unfolding read_u8
read_u8-Onward bs ip = elim (Option-cases (get_elem? bs ip)) [
  | inl e ↦ rw (e, read_u8) tt
  | inr (b, e) ↦ rw (e, read_u8) (omega arith)
]

read_u16-Onward : (bs : Bytes) (ip : ℕ) → Onward ip (read_u16 bs ip)
unfolding read_u16
read_u16-Onward bs ip = elim (Option-cases (get_elem? bs ip)) [
  | inl e ↦ rw (e, read_u16) tt
  | inr (b, e) ↦ elim (Option-cases (get_elem? bs (ip + 1))) [
    | inl g ↦ rw (e, read_u16, g, read_u16) tt
    | inr (c, g) ↦ rw (e, read_u16, g, read_u16) (omega arith)
  ]
]

text-Onward : (ip : ℕ) (r : Result DisasmError Bytes) → Onward ip (r >>= λ text. ok (text, ip))
text-Onward ip (err e) = tt
text-Onward ip (ok text) = omega arith

read_upvalues-Onward : (F : Format) (bs : Bytes) (n ip : ℕ) → Onward ip (read_upvalues F bs n ip)
unfolding read_upvalues
read_upvalues-Onward F bs zero ip = omega arith
read_upvalues-Onward F bs (suc n) ip =
    bind-Onward ip (read_u8 bs ip) _ (read_u8-Onward bs ip) λ a i.
      bind-Onward i (read_u8 bs i) _ (read_u8-Onward bs i) λ b j.
        bind-Onward j (read_upvalues F bs n j) _ (read_upvalues-Onward F bs n j) λ c k. omega arith

module _ (F : Format) (p : Prototype) (ip : ℕ) where
  named-Onward : (label : Bytes) → Onward ip (named F label p ip)
  unfolding named
  named-Onward label =
      bind-Onward ip (read_u16 (code p) ip) _ (read_u16-Onward (code p) ip) λ a i. omega arith

  one_byte-Onward : Onward ip (one_byte F p ip)
  unfolding one_byte
  one_byte-Onward =
      bind-Onward ip (read_u8 (code p) ip) _ (read_u8-Onward (code p) ip) λ a i. omega arith

  two_bytes-Onward : Onward ip (two_bytes F p ip)
  unfolding two_bytes
  two_bytes-Onward =
      bind-Onward ip (read_u16 (code p) ip) _ (read_u16-Onward (code p) ip) λ a i. omega arith

  operands_of-Onward : (o : Option Op) → Onward ip (operands_of F o p ip)
  unfolding operands_of
  operands_of-Onward none = omega arith
  operands_of-Onward (some Op.const) =
      bind-Onward ip (read_u16 (code p) ip) _ (read_u16-Onward (code p) ip)
        λ a i. text-Onward i (const_text F a (const_at (consts p) a))
  operands_of-Onward (some Op.closure) =
      bind-Onward ip (read_u16 (code p) ip) _ (read_u16-Onward (code p) ip) λ a i.
        bind-Onward i (read_u8 (code p) i) _ (read_u8-Onward (code p) i) λ n j.
          bind-Onward j (read_upvalues F (code p) n j) _ (read_upvalues-Onward F (code p) n j)
            λ ups k. omega arith
  operands_of-Onward (some Op.get_global) = named-Onward (codes " ; name=")
  operands_of-Onward (some Op.set_global) = named-Onward (codes " ; name=")
  operands_of-Onward (some Op.define_global) = named-Onward (codes " ; name=")
  operands_of-Onward (some Op.get_prop) = named-Onward (codes " ; prop=")
  operands_of-Onward (some Op.set_prop) = named-Onward (codes " ; prop=")
  operands_of-Onward (some Op.get_local) = one_byte-Onward
  operands_of-Onward (some Op.set_local) = one_byte-Onward
  operands_of-Onward (some Op.get_upvalue) = one_byte-Onward
  operands_of-Onward (some Op.set_upvalue) = one_byte-Onward
  operands_of-Onward (some Op.call) = one_byte-Onward
  operands_of-Onward (some Op.array) = two_bytes-Onward
  operands_of-Onward (some Op.object) = two_bytes-Onward
  operands_of-Onward (some Op.jump) = two_bytes-Onward
  operands_of-Onward (some Op.jump_if_false) = two_bytes-Onward
  operands_of-Onward (some Op.jump_if_true) = two_bytes-Onward
  operands_of-Onward (some Op.iter_next) = two_bytes-Onward
  operands_of-Onward (some _) = omega arith

-- The loop ends before its fuel does.
abbrev pub Ends : Option Written → Type 0
Ends r = (w : Written) × (r ≡ some w)

module _ (F : Format) (p : Prototype) where
  mutual
    unfolding chunk_from chunk_rest

    chunk_from-Ends :
        (fuel ip : ℕ) (d : Writer)
        → 2 * (length (code p) - ip) + 1 < fuel
        → Ends (chunk_from F fuel p ip d)
    chunk_from-Ends zero ip d h = absurd (omega arith)
    chunk_from-Ends (suc fuel) ip d h = elim (Option-cases (get_elem? (code p) ip)) [
      | inl e ↦ rw (e, chunk_from) ((d, none), refl)
      | inr (b, e) ↦
          let l = get_elem?-eq-some (code p) ip e in
          rw (e, chunk_from)
            (chunk_rest-Ends fuel ip b d (operands_of F (decode b) p (ip + 1))
              (operands_of-Onward F p (ip + 1) (decode b)) l (omega arith))
    ]

    chunk_rest-Ends :
        (fuel ip b : ℕ) (d : Writer) (r : Reading Bytes)
        → Onward (ip + 1) r
        → ip < length (code p)
        → 2 * (length (code p) - ip) < fuel
        → Ends (chunk_rest F fuel p ip b r d)
    chunk_rest-Ends zero ip b d r h l g = absurd (omega arith)
    chunk_rest-Ends (suc fuel) ip b d (err e) h l g = ((d, some e), refl)
    chunk_rest-Ends (suc fuel) ip b d (ok (t, next)) h l g =
        chunk_from-Ends fuel next _ (omega arith)

pub and_then-Ends :
    (r : Option Written) (next : Writer → Option Written)
    → Ends r
    → ((d : Writer) → Ends (next d))
    → Ends (and_then r next)
and_then-Ends none next (w, e) h = cc
and_then-Ends (some (d, some e)) next g h = ((d, some e), refl)
and_then-Ends (some (d, none)) next g h = h d

unless_visited-Ends :
    (b : Bool) (p : Prototype) (d : Writer) (next : Writer → Option Written)
    → ((d' : Writer) → Ends (next d'))
    → Ends (unless_visited b p d next)
unless_visited-Ends Bool.true p d next h = ((d, none), refl)
unless_visited-Ends Bool.false p d next h = h (record d { visited = p ∷ d.visited })

module _ (F : Format) (same : Prototype → Prototype → Bool) where
  mutual
    unfolding list_prototype list_consts

    prototype-Ends :
        (label : Bytes) (p : Prototype) (d : Writer) → Ends (list_prototype F same label p d)
    prototype-Ends label (prototype n s k c cs ls us m) d =
        unless_visited-Ends _ (prototype n s k c cs ls us m) d _ λ d'.
          and_then-Ends _ _
            (chunk_from-Ends F (prototype n s k c cs ls us m) (2 * length c + 2) 0 _ (omega arith))
            (consts-Ends 0 cs)

    consts-Ends : (i : ℕ) (cs : Consts) (d : Writer) → Ends (list_consts F same i cs d)
    consts-Ends i empty d = ((d, none), refl)
    consts-Ends i (entry (function p) cs) d =
        and_then-Ends _ _ (prototype-Ends (child_name F.decimal i p) p d) (consts-Ends (i + 1) cs)
    consts-Ends i (entry _ cs) d = consts-Ends (i + 1) cs d

  pub list_prototype_ends :
      (label : Bytes) (p : Prototype) (d : Writer)
      → (w : Written) × (list_prototype F same label p d ≡ some w)
  list_prototype_ends label p d = prototype-Ends label p d
