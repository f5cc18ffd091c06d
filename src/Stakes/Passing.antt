-- ===== src/Stakes/Passing.antt =====
-- What a request to a route on stakes (src/main.rs) has passed when its transaction goes to the node: one
-- lemma for each of the guards.
use Prim.Native.String.{String}
use coal_pool_server.Prelude.{
  ℕ, ◌≤◌, ◌≡◌, ◌≢◌, refl, ◌↔◌, ◌⊎◌, inl, inr, true, Option, none, some, List, [], ◌∷◌, arith, ltb,
  length, Bool-cases, Option-cases,
}
use coal_pool_server.State.{Pubkey}
use coal_pool_server.Claims.{Response, bad_request, internal_server_error}
use coal_pool_server.Stakes.{
  with_keys, Instruction, CompiledInstruction, Transaction, Crates, PartialSign, signs, refuses,
  sign_panics, WalletExtension, Handled, answers, submits, panics, bytes_beq, at_most, matching,
  with_transaction, sign_and_submit, invalid_tx, respond,
}

pub bytes_beq_iff : (xs ys : List ℕ) → (bytes_beq xs ys ≡ true) ↔ (xs ≡ ys)
unfolding bytes_beq
bytes_beq_iff [] [] = (λ h. refl, λ h. refl)
bytes_beq_iff [] (y ∷ ys) = (λ h. cc h, λ h. cc h)
bytes_beq_iff (x ∷ xs) [] = (λ h. cc h, λ h. cc h)
bytes_beq_iff (x ∷ xs) (y ∷ ys) = ground (arith, bytes_beq_iff xs ys)

pub PartialSign-cases :
    (s : PartialSign) → (s ≡ refuses) ⊎ ((s ≡ sign_panics) ⊎ ((tx : Transaction) × (s ≡ signs tx)))
PartialSign-cases refuses = inl refl
PartialSign-cases sign_panics = inr (inl refl)
PartialSign-cases (signs tx) = inr (inr (tx, refl))

-- The handler goes on beyond its guards: it does not just answer.
abbrev pub IsBeyond : Handled → Type 0
IsBeyond out = (x : Response) → answers x ≢ out

module _ (out : Handled) (beyond : IsBeyond out) where
  pub at_most-IsBeyond :
      (limit : ℕ) (tx : Transaction) (go : Handled)
      → at_most limit tx go ≡ out
      → (length tx.instructions ≤ limit) × (go ≡ out)
  unfolding at_most
  at_most-IsBeyond limit tx go h = elim (Bool-cases (ltb limit (length tx.instructions))) [
    | inl over ↦ absurd (beyond invalid_tx (ground (arith, h, over)))
    | inr within ↦ (ground (arith, within), ground (arith, h, within))
  ]

  pub matching-IsBeyond :
      (ixs : List CompiledInstruction) (base_ix : Instruction)
      (go : List CompiledInstruction → Handled)
      → matching ixs base_ix go ≡ out
      → ((ixs ≡ []) × (panics ≡ out))
        ⊎ ((ix : CompiledInstruction) × (rest : List CompiledInstruction) × (ixs ≡ ix ∷ rest)
            × (ix.bytes ≡ base_ix.bytes)
            × (go rest ≡ out))
  unfolding matching
  matching-IsBeyond [] base_ix go h = inl (refl, h)
  matching-IsBeyond (ix ∷ ixs) base_ix go h = elim (Bool-cases (bytes_beq ix.bytes base_ix.bytes)) [
    | inl same ↦
        let bytes_same = (bytes_beq_iff ix.bytes base_ix.bytes).0 same in
        inr (ix, ixs, refl, bytes_same, ground (arith, h, same))
    | inr other ↦ absurd (beyond invalid_tx (ground (arith, h, other)))
  ]

  module _ (crates : Crates) where
    open crates use {decode, deserialize, try_partial_sign, is_signed}

    pub with_transaction-IsBeyond :
        (body : String) (go : Transaction → Handled)
        → with_transaction crates body go ≡ out
        → ((decode body ≡ none) × (panics ≡ out))
          ⊎ ((bytes : List ℕ) × (tx : Transaction) × (decode body ≡ some bytes)
              × (deserialize bytes ≡ some tx)
              × (go tx ≡ out))
    unfolding with_transaction
    with_transaction-IsBeyond body go h = elim (Option-cases (decode body)) [
      | inl garbled ↦ inl (garbled, ground (arith, h, garbled))
      | inr (bytes, decoded) ↦ elim (Option-cases (deserialize bytes)) [
        | inl refused ↦ absurd (beyond invalid_tx (ground (arith, h, decoded, refused)))
        | inr (tx, read) ↦ inr (bytes, tx, decoded, read, ground (arith, h, decoded, read))
      ]
    ]

    pub sign_and_submit-IsBeyond :
        (wallet : WalletExtension) (tx : Transaction) (submit : Transaction → Option Response)
        → sign_and_submit crates wallet tx submit ≡ out
        → ((try_partial_sign wallet.fee_wallet tx ≡ sign_panics) × (panics ≡ out))
          ⊎ ((signed : Transaction) × (try_partial_sign wallet.fee_wallet tx ≡ signs signed)
              × (is_signed signed ≡ true)
              × (submits signed (submit signed) ≡ out))
    unfolding sign_and_submit
    sign_and_submit-IsBeyond wallet tx submit h =
        elim (PartialSign-cases (try_partial_sign wallet.fee_wallet tx)) [
          | inl refused ↦
              let unsigned = respond internal_server_error "Server Failed to sign tx." in
              absurd (beyond unsigned (ground (arith, h, refused)))
          | inr (inl fails) ↦ inl (fails, ground (arith, h, fails))
          | inr (inr (signed, done)) ↦ elim (Bool-cases (is_signed signed)) [
            | inl whole ↦ inr (signed, done, whole, ground (arith, h, done, whole))
            | inr partial ↦ absurd (beyond invalid_tx (ground (arith, h, done, partial)))
          ]
        ]

-- And back: a request that passes a guard goes on.
pub at_most-eq :
    (limit : ℕ) (tx : Transaction) (go : Handled)
    → length tx.instructions ≤ limit
    → at_most limit tx go ≡ go
unfolding at_most
at_most-eq limit tx go within = ground (arith, within)

pub matching-eq :
    (ix : CompiledInstruction) (rest : List CompiledInstruction) (base_ix : Instruction)
    (go : List CompiledInstruction → Handled)
    → ix.bytes ≡ base_ix.bytes
    → matching (ix ∷ rest) base_ix go ≡ go rest
unfolding matching
matching-eq ix rest base_ix go same =
    let found = (bytes_beq_iff ix.bytes base_ix.bytes).1 same in rw found refl

module _ (crates : Crates) where
  open crates use {decode, deserialize, try_partial_sign, is_signed}

  pub with_transaction-eq :
      (body : String) (go : Transaction → Handled) (bytes : List ℕ) (tx : Transaction)
      → decode body ≡ some bytes
      → deserialize bytes ≡ some tx
      → with_transaction crates body go ≡ go tx
  unfolding with_transaction
  with_transaction-eq body go bytes tx decoded read = ground (arith, decoded, read)

  pub with_transaction_garbled :
      (body : String) (go : Transaction → Handled)
      → decode body ≡ none
      → with_transaction crates body go ≡ panics
  unfolding with_transaction
  with_transaction_garbled body go garbled = ground (arith, garbled)

  pub sign_and_submit-eq :
      (wallet : WalletExtension) (tx signed : Transaction) (submit : Transaction → Option Response)
      → try_partial_sign wallet.fee_wallet tx ≡ signs signed
      → is_signed signed ≡ true
      → sign_and_submit crates wallet tx submit ≡ submits signed (submit signed)
  unfolding sign_and_submit
  sign_and_submit-eq wallet tx signed submit done whole = ground (arith, done, whole)

  pub sign_and_submit_panics :
      (wallet : WalletExtension) (tx : Transaction) (submit : Transaction → Option Response)
      → try_partial_sign wallet.fee_wallet tx ≡ sign_panics
      → sign_and_submit crates wallet tx submit ≡ panics
  unfolding sign_and_submit
  sign_and_submit_panics wallet tx submit fails = ground (arith, fails)

module _ (crates : Crates) where
  open crates use {pubkey_from_str}

  pub with_keys_iff :
      (pubkey mint : String) (go : Pubkey → Pubkey → Handled) (out : Handled)
      → IsBeyond out
      → (with_keys crates pubkey mint go ≡ out) ↔ (
          (user : Pubkey) × (token : Pubkey) × (pubkey_from_str pubkey ≡ some user)
          × (pubkey_from_str mint ≡ some token)
          × (go user token ≡ out))
  unfolding with_keys
  with_keys_iff pubkey mint go out beyond = (
    λ h. elim (Option-cases (pubkey_from_str pubkey)) [
      | inl no_user ↦
          absurd (beyond (respond bad_request "Invalid Pubkey") (ground (arith, h, no_user)))
      | inr (user, its_user) ↦ elim (Option-cases (pubkey_from_str mint)) [
        | inl no_mint ↦
            absurd
              (beyond (respond bad_request "Invalid Mint") (ground (arith, h, its_user, no_mint)))
        | inr (token, its_mint) ↦
            (user, token, its_user, its_mint, ground (arith, h, its_user, its_mint))
      ]
    ],
    λ (user, token, its_user, its_mint, h). ground (arith, h, its_user, its_mint),
  )
