-- ===== src/Stakes/Migrate/Steps.antt =====
-- The guards of `post_migrate_boost_v2` (src/main.rs) that it applies twice, and what a list of at most one
-- or two instructions is.
use coal_pool_server.Prelude.{
  ◌≤◌, ◌≡◌, sym, ap, ◌∙◌, ◌↔◌, inl, inr, true, Option, List, [], ◌∷◌, arith, length, subst,
}
use coal_pool_server.Claims.{Response}
use coal_pool_server.Stakes.{
  Crates, WalletExtension, Instruction, CompiledInstruction, Transaction, Handled, submits,
  matching, sign_and_submit, signs,
}
use coal_pool_server.Stakes.Passing.{
  matching-IsBeyond, sign_and_submit-IsBeyond, matching-eq, sign_and_submit-eq, IsBeyond,
}
use coal_pool_server.Stakes.Unstake.Requests.{submits-IsBeyond}

-- A transaction that the fee wallet signs, with no signature missing after it.
abbrev pub IsSignedAs : Crates → WalletExtension → Transaction → Transaction → Type 0
IsSignedAs crates wallet tx signed =
    (crates.try_partial_sign wallet.fee_wallet tx ≡ signs signed) × (crates.is_signed signed ≡ true)

pub no_third :
    (ixs rest : List CompiledInstruction) (a b : CompiledInstruction)
    → ixs ≡ a ∷ (b ∷ rest)
    → length ixs ≤ 2
    → ixs ≡ a ∷ (b ∷ [])
no_third ixs [] a b e le = e
no_third ixs (c ∷ rest) a b e le = absurd (omega (arith, le, ap length e))

pub no_second :
    (ixs rest : List CompiledInstruction) (a : CompiledInstruction)
    → ixs ≡ a ∷ rest
    → length ixs ≤ 1
    → ixs ≡ a ∷ []
no_second ixs [] a e le = e
no_second ixs (c ∷ rest) a e le = absurd (omega (arith, le, ap length e))

abbrev pub beyond : (signed : Transaction) (r : Option Response) → IsBeyond (submits signed r)
beyond = submits-IsBeyond

-- The next instruction matches, and the handler goes on to send.
pub step_iff :
    (signed : Transaction) (r : Option Response) (base_ix : Instruction)
    (ixs : List CompiledInstruction) (go : List CompiledInstruction → Handled)
    → (matching ixs base_ix go ≡ submits signed r) ↔ (
        (a : CompiledInstruction) × (rest : List CompiledInstruction) × (ixs ≡ a ∷ rest)
        × (a.bytes ≡ base_ix.bytes)
        × (go rest ≡ submits signed r))
step_iff signed r base_ix ixs go = (
  λ h. elim (matching-IsBeyond (submits signed r) (beyond signed r) ixs base_ix go h) [
    | inl (empty, e) ↦ absurd (cc e)
    | inr (a, rest, e, same, goes) ↦ (a, rest, e, same, goes)
  ],
  λ (a, rest, e, same, goes).
      ap (λ (l : List CompiledInstruction). matching l base_ix go) e
      ∙ matching-eq a rest base_ix go same
      ∙ goes,
)

pub signing_iff :
    (crates : Crates) (wallet : WalletExtension) (tx signed : Transaction)
    (submit : Transaction → Option Response) (r : Option Response)
    → (sign_and_submit crates wallet tx submit ≡ submits signed r)
      ↔ (IsSignedAs crates wallet tx signed × (r ≡ submit signed))
signing_iff crates wallet tx signed submit r = (
  λ h.
      elim (sign_and_submit-IsBeyond (submits signed r) (beyond signed r) crates wallet tx submit
        h) [
          | inl (fails, e) ↦ absurd (cc e)
          | inr (s, done, whole, e) ↦
              let its : s ≡ signed = cc e in
              let answer : submit s ≡ r = cc e in
              (
                (
                  done ∙ ap signs its,
                  subst (λ (t : Transaction). crates.is_signed t ≡ true) its whole,
                ),
                sym answer ∙ ap submit its,
              )
        ],
  λ ((done, whole), answer).
      sign_and_submit-eq crates wallet tx signed submit done whole
      ∙ ap (submits signed) (sym answer),
)
