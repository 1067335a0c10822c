-- ===== src/Access.antt =====
-- Who may see a row: the WHERE fragment that every provider of src/vision_bill/provider/db adds
-- to its statements, `AND user_id = $n`, unless the caller sees all rows or has no id.
use vision_bill.Prelude.{
  ℕ, ◌≡◌, ◌↔◌, Bool, true, false, Option, none, some, arith, ◌==◌, if◌then◌else◌,
}

-- A row without an owner (NULL) equals no user.
abbrev pub owned_by : ℕ → Option ℕ → Bool
owned_by user none = false
owned_by user (some owner) = owner == user

abbrev pub in_scope : Option ℕ → Bool → Option ℕ → Bool
in_scope none can_see_all owner = true
in_scope (some user) can_see_all owner = if can_see_all then true else owned_by user owner

-- A caller who does not see all rows sees exactly the own ones.
pub in_scope_iff :
    (user : ℕ) (owner : Option ℕ) → (in_scope (some user) false owner ≡ true) ↔ (owner ≡ some user)
in_scope_iff user none = (λ h. absurd (cc), λ h. absurd (cc))
in_scope_iff user (some owner) = ground arith
