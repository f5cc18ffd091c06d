-- ===== src/Stakes/Landing.antt =====
-- The wait of `post_unstake` for its transaction: `confirm_txn` of src/main.rs, over the looks that it
-- takes at the signature, five seconds apart.
use coal_pool_server.Prelude.{
  ◌≤◌, ◌<◌, ◌≡◌, ◌≢◌, refl, ◌⊎◌, inl, inr, Bool, true, false, Option, none, some, List, [], ◌∷◌,
  ◌↔◌, arith, if◌then◌else◌, leb, Bool-cases, if_rule,
}
use coal_pool_server.Stakes.{
  ConfirmationStatus, processed, confirmed, finalized, TransactionStatus, Look,
}

-- What the wait comes to, so far.
pub data Confirmation : Type 0 where
  landed expired failed waiting : Confirmation

-- What a status decides.
abbrev pub settled : ConfirmationStatus → Bool → Confirmation → Confirmation
settled processed has_err later = later
settled confirmed has_err later = if has_err then failed else landed
settled finalized has_err later = if has_err then failed else landed

abbrev pub decide : Option TransactionStatus → Confirmation → Confirmation
decide none later = later
decide (some s) later = settled s.confirmation_status s.has_err later

unfoldable pub confirm_txn : List Look → Confirmation
confirm_txn [] = waiting
confirm_txn (look ∷ rest) =
    let later = confirm_txn rest in
    if leb 180 look.elapsed then expired else decide look.status later

-- A look in time that leaves the matter open: no status, or one that is not final.
abbrev pub IsOpen : Look → Type 0
IsOpen look =
    (look.elapsed < 180)
    × ((look.status ≡ none)
        ⊎ ((s : TransactionStatus) × (look.status ≡ some s) × (s.confirmation_status ≡ processed)))

-- A look in time that shows the transaction on the chain, without an error.
abbrev pub HasLanded : Look → Type 0
HasLanded look =
    (look.elapsed < 180)
    × ((s : TransactionStatus) × (look.status ≡ some s)
        × (s.confirmation_status ≢ processed)
        × (s.has_err ≡ false))

-- The first look that is not open shows that the transaction has landed.
pub data Lands : List Look → Type 0 where
  now : {look : Look} {rest : List Look} → HasLanded look → Lands (look ∷ rest)
  later : {look : Look} {rest : List Look} → IsOpen look → Lands rest → Lands (look ∷ rest)

-- Some look comes after the three minutes.
abbrev pub HasLateLook : List Look → Type 0
HasLateLook [] = ⊥
HasLateLook (look ∷ rest) = (180 ≤ look.elapsed) ⊎ HasLateLook rest

settled-landed :
    (c : ConfirmationStatus) (has_err : Bool) (next : Confirmation)
    → settled c has_err next ≡ landed
    → ((c ≡ processed) × (next ≡ landed)) ⊎ ((c ≢ processed) × (has_err ≡ false))
settled-landed processed has_err next h = inl (refl, h)
settled-landed confirmed true next h = absurd (cc h)
settled-landed confirmed false next h = inr (λ e. cc e, refl)
settled-landed finalized true next h = absurd (cc h)
settled-landed finalized false next h = inr (λ e. cc e, refl)

settled_fine :
    (c : ConfirmationStatus) (next : Confirmation) → c ≢ processed → settled c false next ≡ landed
settled_fine processed next final = absurd (final refl)
settled_fine confirmed next final = refl
settled_fine finalized next final = refl

decide-Lands :
    (look : Look) (rest : List Look) (o : Option TransactionStatus) (next : Confirmation)
    → look.elapsed < 180
    → look.status ≡ o
    → decide o next ≡ landed
    → (next ≡ landed → Lands rest)
    → Lands (look ∷ rest)
decide-Lands look rest none next soon shown h ih = later (soon, inl shown) (ih h)
decide-Lands look rest (some s) next soon shown h ih =
    elim (settled-landed s.confirmation_status s.has_err next h) [
      | inl (early, h') ↦ later (soon, inr (s, shown, early)) (ih h')
      | inr (final, fine) ↦ now (soon, (s, shown, final, fine))
    ]

confirm_txn-landed : (looks : List Look) → confirm_txn looks ≡ landed → Lands looks
unfolding confirm_txn
confirm_txn-landed [] h = absurd (cc h)
confirm_txn-landed (look ∷ rest) h = elim (Bool-cases (leb 180 look.elapsed)) [
  | inl late ↦ absurd (ground (arith, h, late))
  | inr soon ↦
      let h' : decide look.status (confirm_txn rest) ≡ landed = ground (arith, h, soon) in
      decide-Lands look rest look.status (confirm_txn rest) (ground (arith, soon)) refl h'
        (confirm_txn-landed rest)
]

confirm_txn-Lands : (looks : List Look) → Lands looks → confirm_txn looks ≡ landed
unfolding confirm_txn
confirm_txn-Lands [] lands = elim lands [ ]
confirm_txn-Lands (look ∷ rest) (now (soon, (s, shown, final, fine))) =
    let in_time : leb 180 look.elapsed ≡ false = ground (arith, soon) in
    rw (in_time, shown, fine) (settled_fine s.confirmation_status (confirm_txn rest) final)
confirm_txn-Lands (look ∷ rest) (later (soon, inl unknown) lands) =
    ground (arith, soon, unknown, confirm_txn-Lands rest lands)
confirm_txn-Lands (look ∷ rest) (later (soon, inr (s, shown, early)) lands) =
    ground (arith, soon, shown, early, confirm_txn-Lands rest lands)

settled-waiting :
    (c : ConfirmationStatus) (has_err : Bool) (next : Confirmation)
    → next ≢ waiting
    → settled c has_err next ≢ waiting
settled-waiting processed has_err next ends = ends
settled-waiting confirmed true next ends = λ h. cc h
settled-waiting confirmed false next ends = λ h. cc h
settled-waiting finalized true next ends = λ h. cc h
settled-waiting finalized false next ends = λ h. cc h

decide-waiting :
    (o : Option TransactionStatus) (next : Confirmation) → next ≢ waiting → decide o next ≢ waiting
decide-waiting none next ends = ends
decide-waiting (some s) next ends = settled-waiting s.confirmation_status s.has_err next ends

-- The wait ends if some look comes after three minutes.
pub confirm_txn_ends : (looks : List Look) → HasLateLook looks → confirm_txn looks ≢ waiting
unfolding confirm_txn
confirm_txn_ends [] ends = absurd ends
confirm_txn_ends (look ∷ rest) (inl late) = λ h. ground (arith, h, late)
confirm_txn_ends (look ∷ rest) (inr ends) =
    if_rule (λ (c : Confirmation). c ≢ waiting) (leb 180 look.elapsed) (λ late h. cc h)
      λ soon. decide-waiting look.status (confirm_txn rest) (confirm_txn_ends rest ends)

-- The wait for a transaction finds that it has landed exactly when, of the looks at its signature, the
-- first that is not open comes within three minutes and shows a confirmed or finalized status without
-- an error, where a look within three minutes is open if it shows no status or one that is only
-- processed.
pub confirm_txn_iff : (looks : List Look) → (confirm_txn looks ≡ landed) ↔ Lands looks
confirm_txn_iff looks = (confirm_txn-landed looks, confirm_txn-Lands looks)
