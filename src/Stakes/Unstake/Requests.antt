-- ===== src/Stakes/Unstake/Requests.antt =====
-- What the unstake routes of src/main.rs share: the request that makes the server send a transaction, and
-- the one that makes it panic.
use Prim.Native.String.{String}
use coal_pool_server.Prelude.{
  ℕ, ◌≤◌, ◌≡◌, ◌≢◌, refl, sym, ap, ◌∙◌, ◌↔◌, ◌⊎◌, inl, inr, true, Option, none, some, List, [], ◌∷◌,
  arith, length, subst,
}
use coal_pool_server.Claims.{Response}
use coal_pool_server.Stakes.{
  Crates, WalletExtension, Instruction, CompiledInstruction, Transaction, Handled, submits, panics,
  signs, sign_panics, matching, at_most, sign_and_submit,
}
use coal_pool_server.Stakes.Passing.{
  IsBeyond, at_most-IsBeyond, matching-IsBeyond, with_transaction-IsBeyond,
  sign_and_submit-IsBeyond, at_most-eq, matching-eq, with_transaction-eq, with_transaction_garbled,
  sign_and_submit-eq, sign_and_submit_panics,
}
use coal_pool_server.Stakes.Unstake.{redeem, unstake}

module _ (crates : Crates) (wallet : WalletExtension) where
  open crates use {decode, deserialize, try_partial_sign, is_signed}

  -- The body is a transaction with one instruction, whose data are those of `base_ix`; `signed` is what
  -- the fee wallet makes of it, and no signature is missing.
  abbrev pub IsRequestFor : String → Instruction → Transaction → Type 0
  IsRequestFor body base_ix signed =
      (bytes : List ℕ) × (tx : Transaction) × (ix : CompiledInstruction) × (decode body
        ≡ some bytes)
      × (deserialize bytes ≡ some tx)
      × (tx.instructions ≡ ix ∷ [])
      × (ix.bytes ≡ base_ix.bytes)
      × (try_partial_sign wallet.fee_wallet tx ≡ signs signed)
      × (is_signed signed ≡ true)

module _ (crates : Crates) where
  open crates use {decode, deserialize}

  -- The body is a transaction with no instruction.
  abbrev pub IsEmptyRequest : String → Type 0
  IsEmptyRequest body =
      (bytes : List ℕ) × (tx : Transaction) × (decode body ≡ some bytes)
      × (deserialize bytes ≡ some tx)
      × (tx.instructions ≡ [])

module _ (crates : Crates) (wallet : WalletExtension) where
  open crates use {decode, deserialize, try_partial_sign}

  -- The body is a transaction with one instruction, whose data are those of `base_ix`, and the signing for
  -- the fee wallet panics on it.
  abbrev pub IsUnsignableRequest : String → Instruction → Type 0
  IsUnsignableRequest body base_ix =
      (bytes : List ℕ) × (tx : Transaction) × (ix : CompiledInstruction) × (decode body
        ≡ some bytes)
      × (deserialize bytes ≡ some tx)
      × (tx.instructions ≡ ix ∷ [])
      × (ix.bytes ≡ base_ix.bytes)
      × (try_partial_sign wallet.fee_wallet tx ≡ sign_panics)

pub submits-IsBeyond : (signed : Transaction) (r : Option Response) → IsBeyond (submits signed r)
submits-IsBeyond signed r x h = cc h

pub panics-IsBeyond : IsBeyond panics
panics-IsBeyond x h = cc h

single :
    (ixs : List CompiledInstruction) (ix : CompiledInstruction) (rest : List CompiledInstruction)
    → ixs ≡ ix ∷ rest
    → length ixs ≤ 1
    → ixs ≡ ix ∷ []
single ixs ix [] e le = e
single ixs ix (jx ∷ rest) e le = absurd (omega (arith, le, ap length e))

module _ (crates : Crates) (wallet : WalletExtension) where
  redeem-submits :
      (signed : Transaction) (r : Option Response) (account : Option ℕ) (refusal : Response)
      (base_ix : Instruction) (submit : Transaction → Option Response) (tx : Transaction)
      → length tx.instructions ≤ 1
      → redeem crates wallet account refusal base_ix submit tx ≡ submits signed r
      → (account ≢ none)
        × (r ≡ submit signed)
        × ((ix : CompiledInstruction) × (tx.instructions ≡ ix ∷ [])
            × (ix.bytes ≡ base_ix.bytes)
            × (crates.try_partial_sign wallet.fee_wallet tx ≡ signs signed)
            × (crates.is_signed signed ≡ true))
  unfolding redeem
  redeem-submits signed r none refusal base_ix submit tx le h = absurd (cc h)
  redeem-submits signed r (some account) refusal base_ix submit tx le h =
      elim (matching-IsBeyond (submits signed r) (submits-IsBeyond signed r) tx.instructions base_ix
        (λ rest. sign_and_submit crates wallet tx submit) h) [
          | inl (empty, e) ↦ absurd (cc e)
          | inr (ix, rest, e, same, goes) ↦
              elim (sign_and_submit-IsBeyond (submits signed r) (submits-IsBeyond signed r) crates
                wallet tx submit goes) [
                  | inl (fails, e') ↦ absurd (cc e')
                  | inr (s, done, whole, e') ↦
                      let its : s ≡ signed = cc e' in
                      let answer : submit s ≡ r = cc e' in
                      (
                        λ absent. cc absent,
                        sym answer ∙ ap submit its,
                        (
                          ix,
                          single tx.instructions ix rest e le,
                          same,
                          done ∙ ap signs its,
                          subst (λ (t : Transaction). crates.is_signed t ≡ true) its whole,
                        ),
                      )
                ]
        ]

  redeem-panics :
      (account : Option ℕ) (refusal : Response) (base_ix : Instruction)
      (submit : Transaction → Option Response) (tx : Transaction)
      → length tx.instructions ≤ 1
      → redeem crates wallet account refusal base_ix submit tx ≡ panics
      → (account ≢ none)
        × ((tx.instructions ≡ [])
            ⊎ ((ix : CompiledInstruction) × (tx.instructions ≡ ix ∷ [])
                × (ix.bytes ≡ base_ix.bytes)
                × (crates.try_partial_sign wallet.fee_wallet tx ≡ sign_panics)))
  unfolding redeem
  redeem-panics none refusal base_ix submit tx le h = absurd (cc h)
  redeem-panics (some account) refusal base_ix submit tx le h =
      elim (matching-IsBeyond panics panics-IsBeyond tx.instructions base_ix
        (λ rest. sign_and_submit crates wallet tx submit) h) [
          | inl (empty, e) ↦ (λ absent. cc absent, inl empty)
          | inr (ix, rest, e, same, goes) ↦
              elim (sign_and_submit-IsBeyond panics panics-IsBeyond crates wallet tx submit goes) [
                | inl (fails, e') ↦ (
                  λ absent. cc absent,
                  inr (ix, single tx.instructions ix rest e le, same, fails),
                )
                | inr (s, done, whole, e') ↦ absurd (cc e')
              ]
        ]

  redeem-eq :
      (signed : Transaction) (account : Option ℕ) (refusal : Response) (base_ix : Instruction)
      (submit : Transaction → Option Response) (tx : Transaction) (ix : CompiledInstruction)
      → account ≢ none
      → tx.instructions ≡ ix ∷ []
      → ix.bytes ≡ base_ix.bytes
      → crates.try_partial_sign wallet.fee_wallet tx ≡ signs signed
      → crates.is_signed signed ≡ true
      → redeem crates wallet account refusal base_ix submit tx ≡ submits signed (submit signed)
  unfolding redeem
  redeem-eq signed none refusal base_ix submit tx ix has one same done whole = absurd (has refl)
  redeem-eq signed (some account) refusal base_ix submit tx ix has one same done whole =
      let go : List CompiledInstruction → Handled =
        λ (rest : List CompiledInstruction). sign_and_submit crates wallet tx submit in
      ap (λ (ixs : List CompiledInstruction). matching ixs base_ix go) one
      ∙ matching-eq ix [] base_ix go same
      ∙ sign_and_submit-eq crates wallet tx signed submit done whole

  redeem_unsignable :
      (account : Option ℕ) (refusal : Response) (base_ix : Instruction)
      (submit : Transaction → Option Response) (tx : Transaction) (ix : CompiledInstruction)
      → account ≢ none
      → tx.instructions ≡ ix ∷ []
      → ix.bytes ≡ base_ix.bytes
      → crates.try_partial_sign wallet.fee_wallet tx ≡ sign_panics
      → redeem crates wallet account refusal base_ix submit tx ≡ panics
  unfolding redeem
  redeem_unsignable none refusal base_ix submit tx ix has one same fails = absurd (has refl)
  redeem_unsignable (some account) refusal base_ix submit tx ix has one same fails =
      let go : List CompiledInstruction → Handled =
        λ (rest : List CompiledInstruction). sign_and_submit crates wallet tx submit in
      ap (λ (ixs : List CompiledInstruction). matching ixs base_ix go) one
      ∙ matching-eq ix [] base_ix go same
      ∙ sign_and_submit_panics crates wallet tx submit fails

  redeem_empty :
      (account : Option ℕ) (refusal : Response) (base_ix : Instruction)
      (submit : Transaction → Option Response) (tx : Transaction)
      → account ≢ none
      → tx.instructions ≡ []
      → redeem crates wallet account refusal base_ix submit tx ≡ panics
  unfolding redeem matching
  redeem_empty none refusal base_ix submit tx has empty = absurd (has refl)
  redeem_empty (some account) refusal base_ix submit tx has empty =
      let go : List CompiledInstruction → Handled =
        λ (rest : List CompiledInstruction). sign_and_submit crates wallet tx submit in
      ap (λ (ixs : List CompiledInstruction). matching ixs base_ix go) empty

  pub unstake_iff :
      (body : String) (account : Option ℕ) (refusal : Response) (base_ix : Instruction)
      (submit : Transaction → Option Response) (signed : Transaction) (r : Option Response)
      → (unstake crates wallet body account refusal base_ix submit ≡ submits signed r)
        ↔ ((account ≢ none) × (r ≡ submit signed) × IsRequestFor crates wallet body base_ix signed)
  unfolding unstake
  unstake_iff body account refusal base_ix submit signed r =
      let turn : Transaction → Handled =
        λ (tx : Transaction). redeem crates wallet account refusal base_ix submit tx in
      let go : Transaction → Handled = λ (tx : Transaction). at_most 1 tx (turn tx) in
      (
        λ h.
            elim (with_transaction-IsBeyond (submits signed r) (submits-IsBeyond signed r) crates
              body go h) [
                | inl (garbled, e) ↦ absurd (cc e)
                | inr (bytes, tx, decoded, read, goes) ↦
                    let (le, h') =
                      at_most-IsBeyond (submits signed r) (submits-IsBeyond signed r) 1 tx (turn tx)
                        goes in
                    let (has, answer, (ix, one, same, done, whole)) =
                      redeem-submits signed r account refusal base_ix submit tx le h' in
                    (has, answer, (bytes, tx, ix, decoded, read, one, same, done, whole))
              ],
        λ (has, answer, (bytes, tx, ix, decoded, read, one, same, done, whole)).
            let size : length tx.instructions ≡ 1 = ap length one in
            with_transaction-eq crates body go bytes tx decoded read
            ∙ at_most-eq 1 tx (turn tx) (omega (arith, size))
            ∙ redeem-eq signed account refusal base_ix submit tx ix has one same done whole
            ∙ ap (submits signed) (sym answer),
      )

  pub unstake_panics_iff :
      (body : String) (account : Option ℕ) (refusal : Response) (base_ix : Instruction)
      (submit : Transaction → Option Response)
      → (unstake crates wallet body account refusal base_ix submit ≡ panics) ↔ (
          (crates.decode body ≡ none)
          ⊎ ((account ≢ none)
              × (IsEmptyRequest crates body ⊎ IsUnsignableRequest crates wallet body base_ix)))
  unfolding unstake
  unstake_panics_iff body account refusal base_ix submit =
      let turn : Transaction → Handled =
        λ (tx : Transaction). redeem crates wallet account refusal base_ix submit tx in
      let go : Transaction → Handled = λ (tx : Transaction). at_most 1 tx (turn tx) in
      (
        λ h. elim (with_transaction-IsBeyond panics panics-IsBeyond crates body go h) [
          | inl (garbled, e) ↦ inl garbled
          | inr (bytes, tx, decoded, read, goes) ↦
              let (le, h') = at_most-IsBeyond panics panics-IsBeyond 1 tx (turn tx) goes in
              let (has, cause) = redeem-panics account refusal base_ix submit tx le h' in
              elim cause [
                | inl empty ↦ inr (has, inl (bytes, tx, decoded, read, empty))
                | inr (ix, one, same, fails) ↦
                    inr (has, inr (bytes, tx, ix, decoded, read, one, same, fails))
              ]
        ],
        λ cause. elim cause [
          | inl garbled ↦ with_transaction_garbled crates body go garbled
          | inr (has, inl (bytes, tx, decoded, read, empty)) ↦
              let size : length tx.instructions ≡ 0 = ap length empty in
              with_transaction-eq crates body go bytes tx decoded read
              ∙ at_most-eq 1 tx (turn tx) (omega (arith, size))
              ∙ redeem_empty account refusal base_ix submit tx has empty
          | inr (has, inr (bytes, tx, ix, decoded, read, one, same, fails)) ↦
              let size : length tx.instructions ≡ 1 = ap length one in
              with_transaction-eq crates body go bytes tx decoded read
              ∙ at_most-eq 1 tx (turn tx) (omega (arith, size))
              ∙ redeem_unsignable account refusal base_ix submit tx ix has one same fails
        ],
      )
