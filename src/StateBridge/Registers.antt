-- ===== src/StateBridge/Registers.antt =====
-- Named registers: what is set is what is read back, and no other register changes.
use remill_tester.Base.{
  ℕ, suc, ◌+◌, ◌<◌, ◌≡◌, refl, sym, ap, ◌∙◌, arith, inl, inr, true, List, [], ◌∷◌, some,
  Option-cases, ==_refl, if◌then◌else◌, length, get_or, All,
}
use remill_tester.Base.Text.{Text, same, same_iff}
use remill_tester.Base.Map.{find, text_key}
use remill_tester.GuestMemory.Transfer.{window}
use remill_tester.Parser.Strings.{to_lower}
use remill_tester.StateBridge.{
  Gpr, State, ByteRegisterKind, ByteRegisterInfo, registers, scalar_register_names, gpr_code,
  kind_code, set_gpr, set_scalar_register, get_scalar_register, parse_byte_register_name,
  set_register_bytes, set_byte_register, get_byte_register,
}

-- The name at a member's place in the table.
abbrev name_of : Gpr → Text
unfolding scalar_register_names
name_of r = get_or scalar_register_names (gpr_code r) []

find-name_of :
    (name : Text) (table : List (Text × Gpr)) (r : Gpr)
    → All (λ (e : Text × Gpr). e.0 ≡ name_of e.1) table
    → find name table ≡ some r
    → name ≡ name_of r
unfolding find
find-name_of name [] r h e = absurd (ground arith)
find-name_of name ((t, q) ∷ table) r (h, hs) e =
    ground (arith, same_iff t name, find-name_of name table r hs)

registers-name_of : All (λ (e : Text × Gpr). e.0 ≡ name_of e.1) registers
unfolding scalar_register_names
registers-name_of = ground arith

same_member :
    (a b : Text) (r q : Gpr)
    → find a registers ≡ some r
    → find b registers ≡ some q
    → gpr_code r ≡ gpr_code q
    → a ≡ b
unfolding name_of
same_member a b r q ha hb e =
    find-name_of a registers r registers-name_of ha
    ∙ ap (λ (n : ℕ). get_or scalar_register_names n []) e
    ∙ sym (find-name_of b registers q registers-name_of hb)

-- After a SetScalarRegister that succeeded, GetScalarRegister gives the value that was set for the
-- same name up to case, and for any other name what it gave before.
pub get_scalar_register-set_scalar_register :
    (s : State) (a b : Text) (value : ℕ)
    → (set_scalar_register s a value).0 ≡ true
    → get_scalar_register (set_scalar_register s a value).1 b
      ≡ (if same (to_lower a) (to_lower b) then some value else get_scalar_register s b)
unfolding set_scalar_register get_scalar_register set_gpr
get_scalar_register-set_scalar_register s a b value h =
    elim (Option-cases (find (to_lower a) registers)) [
      | inl e ↦ absurd (ground arith)
      | inr (r, e) ↦ elim (Option-cases (find (to_lower b) registers)) [
        | inl e' ↦ ground (arith, same_iff (to_lower a) (to_lower b))
        | inr (q, e') ↦ ground (
          arith,
          same_iff (to_lower a) (to_lower b),
          same_member (to_lower a) (to_lower b) r q e e',
        )
      ]
    ]

window-replaced :
    (f : ℕ → ℕ) (bytes : List ℕ) (start : ℕ)
    → ((i : ℕ) → i < length bytes → f (start + i) ≡ get_or bytes i 0)
    → window f start (length bytes) ≡ bytes
window-replaced f [] start h = refl
window-replaced f (b ∷ bytes) start h =
    let first : f start ≡ b =
      let e : start + 0 ≡ start = omega arith in rw e at (h 0 (omega arith)) in
    let others = window-replaced f bytes (start + 1) (λ i hi.
      let e : start + 1 + i ≡ start + suc i = omega arith in
      rw e (h (suc i) (omega (arith, hi)))) in
    ground arith

-- After a SetByteRegister that succeeded, GetByteRegister of the same name gives the bytes that
-- were set.
pub get_byte_register-set_byte_register :
    (num_vec_registers : ℕ) (s : State) (name : Text) (bytes : List ℕ)
    → (set_byte_register num_vec_registers s name bytes).0 ≡ true
    → get_byte_register num_vec_registers (set_byte_register num_vec_registers s name bytes).1 name
      ≡ some bytes
unfolding set_byte_register get_byte_register set_register_bytes
get_byte_register-set_byte_register num_vec_registers s name bytes h =
    elim (Option-cases (parse_byte_register_name num_vec_registers name)) [
      | inl e ↦ absurd (ground arith)
      | inr (info, e) ↦
          let size : length bytes ≡ info.size = ground arith in ground (arith, sized info size)
    ]
  where
    sized :
        (info : ByteRegisterInfo)
        → length bytes ≡ info.size
        → window
            ((set_register_bytes s info.kind info.index bytes).register_bytes info.kind info.index)
            0
            info.size
          ≡ bytes
    sized info size = rw⁻¹ size (
        window-replaced
          ((set_register_bytes s info.kind info.index bytes).register_bytes info.kind info.index)
          bytes 0
          (λ i hi. let z : 0 + i ≡ i = omega arith in rw z (stored info.kind info.index i hi)))
      where
        stored :
            (kind : ByteRegisterKind) (index i : ℕ)
            → i < length bytes
            → (set_register_bytes s kind index bytes).register_bytes kind index i ≡ get_or bytes i 0
        stored kind index i hi = ground (arith, ==_refl (kind_code kind), ==_refl index, hi)
