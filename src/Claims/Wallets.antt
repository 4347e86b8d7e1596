-- ===== src/Claims/Wallets.antt =====
-- The limits of a verified wallet over any history of a public deployment: the claims of every user
-- that is bound to it count together.
pub mod Hourly
pub mod Spots
use nim_hunt.Prelude.{
  ℕ, ◌≡◌, refl, sym, ap, ◌∙◌, subst, inl, inr, Bool, true, false, ◌&&◌, ◌||◌, Option, none, some,
  List, [], ◌∷◌, map, ◌==◌, ltb, arith, if◌then◌else◌, Bool-cases, filter, find, contains, any, All,
  Option-cases,
}
use nim_hunt.Prelude.Text.{Text, same, same_iff}
use nim_hunt.Claims.{Binding, Setting}
use nim_hunt.Claims.Promote.{
  names_user, binds_wallet, named_user, verified_wallet_user_ids, binding_of, verified_wallet,
}

-- A binding is stored under the user that it names, and no key is there twice.
abbrev pub IsBound : List Binding → Type 0
IsBound bindings =
    All (λ b. names_user b ≡ true → binding_of bindings (named_user b) ≡ some b) bindings

binds :
    (address : Text) (b : Binding) → binds_wallet address b ≡ true → b.wallet_address ≡ some address
binds address b h = elim (Option-cases b.wallet_address) [
  | inl e ↦ absurd (let t : false ≡ true = rw (binds_wallet, e) at h in cc)
  | inr (a, e) ↦
      let t : same a address ≡ true = rw (binds_wallet, e) at h in
      e ∙ ap some ((same_iff a address).0 t)
]

bound_below :
    (bindings l : List Binding) (address : Text) (user_id : ℕ)
    → All (λ b. names_user b ≡ true → binding_of bindings (named_user b) ≡ some b) l
    → contains user_id (map named_user (filter (λ b. binds_wallet address b && names_user b) l))
      ≡ true
    → verified_wallet bindings user_id ≡ some address
unfolding verified_wallet
bound_below bindings [] address user_id h e = absurd cc
bound_below bindings (b ∷ l) address user_id h e =
    elim (Bool-cases (binds_wallet address b && names_user b)) [
      | inr p ↦ bound_below bindings l address user_id h.1 (rw p at e)
      | inl p ↦ elim (Bool-cases (named_user b == user_id)) [
        | inr q ↦
            let rest : contains user_id
                  (map named_user (filter (λ b. binds_wallet address b && names_user b) l))
                ≡ true =
              rw (p, q) at e in
            bound_below bindings l address user_id h.1 rest
        | inl q ↦
            let k : named_user b ≡ user_id = ground arith in
            let names : names_user b ≡ true = ground arith in
            let wallet_ : binds_wallet address b ≡ true = ground arith in
            let f : binding_of bindings user_id ≡ some b =
              subst (λ u. binding_of bindings u ≡ some b) k (h.0 names) in
            rw (verified_wallet, f) (binds address b wallet_)
      ]
    ]

-- The users that count for a wallet are those whose claims are checked against it.
pub bound_user :
    (bindings : List Binding) (address : Text) (user_id : ℕ)
    → IsBound bindings
    → contains user_id (verified_wallet_user_ids bindings address) ≡ true
    → verified_wallet bindings user_id ≡ some address
unfolding verified_wallet_user_ids
bound_user bindings address user_id h e = bound_below bindings bindings address user_id h e
