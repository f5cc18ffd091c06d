-- ===== src/Clients/Parsing.antt =====
-- What `process_message` (src/main.rs) takes for a submission.
use coal_pool_server.Prelude.{
  ℕ, ◌+◌, ◌≤◌, ◌≡◌, refl, sym, ap, ◌∙◌, ◌↔◌, inl, inr, Bool, true, false, some, List, [], ◌∷◌, ◌++◌,
  take, drop, length, arith, ltb, nat_beq, Bool-cases, Option-cases, subst, length-append,
}
use coal_pool_server.Prelude.Bytes.{from_le_bytes}
use coal_pool_server.State.{Pubkey, SocketAddr, best_solution}
use coal_pool_server.Clients.{
  Signing, WsMessage, text, close, pong_frame, ping_frame, binary, continues, verified, signed,
  process_solution, process_binary, process_message,
}
use coal_pool_server.Clients.Layout.{length-take, length-drop, layout_of, slices}

module _ {S : Type 0} (signing : Signing S) where
  open signing use {Signature, is_utf8, from_str, verify, new_solution}

  -- The bytes of a submission and what is read off them.
  pub record IsSigned (d : List ℕ) (solution : S) (pubkey : Pubkey) : Type 0 where
    pub digest : List ℕ
    pub nonce : List ℕ
    pub key : List ℕ
    pub signature_text : List ℕ
    pub sig : Signature
    pub layout : d ≡ 2 ∷ (digest ++ (nonce ++ (key ++ signature_text)))
    pub widths : (length digest ≡ 16) × (length nonce ≡ 8) × (length key ≡ 32)
    pub utf8 : is_utf8 signature_text ≡ true
    pub reads : from_str signature_text ≡ some sig
    pub verifies : verify sig pubkey (digest ++ nonce) ≡ true
    pub its_key : from_le_bytes key ≡ pubkey
    pub its_solution : new_solution digest nonce ≡ solution

  verified-some :
      (who addr : SocketAddr) (s solution : S) (k pubkey : Pubkey) (b : Bool)
      → verified signing who s k b ≡ continues (some (best_solution addr solution pubkey))
      → (who ≡ addr) × (s ≡ solution) × (k ≡ pubkey) × (b ≡ true)
  verified-some who addr s solution k pubkey true h = (cc h, cc h, cc h, refl)
  verified-some who addr s solution k pubkey false h = absurd (cc h)

  read :
      (who addr : SocketAddr) (rest : List ℕ) (solution : S) (pubkey : Pubkey) (sig : Signature)
      → ltb (length (2 ∷ rest)) 57 ≡ false
      → is_utf8 (drop 56 rest) ≡ true
      → from_str (drop 56 rest) ≡ some sig
      → signed signing who
          (take 16 rest)
          (take 8 (drop 16 rest))
          (from_le_bytes (take 32 (drop 24 rest)))
          (some sig)
        ≡ continues (some (best_solution addr solution pubkey))
      → (addr ≡ who) × IsSigned (2 ∷ rest) solution pubkey
  read who addr rest solution pubkey sig long utf8 reads h =
      let digest = take 16 rest in
      let nonce = take 8 (drop 16 rest) in
      let key = take 32 (drop 24 rest) in
      let enough : 56 ≤ length rest = ground (arith, long) in
      let (sender, its, owner, verifies) =
        verified-some who addr (new_solution digest nonce) solution (from_le_bytes key) pubkey
          (verify sig (from_le_bytes key) (digest ++ nonce)) h in
      (
        sym sender,
        record {
          digest = digest;
          nonce = nonce;
          key = key;
          signature_text = drop 56 rest;
          sig = sig;
          layout = ap (λ (xs : List ℕ). 2 ∷ xs) (layout_of rest);
          widths = (
            length-take 16 rest (omega (arith, enough)),
            length-take 8 (drop 16 rest) (omega (arith, enough, length-drop 16 rest)),
            length-take 32 (drop 24 rest) (omega (arith, enough, length-drop 24 rest)),
          );
          utf8 = utf8;
          reads = reads;
          verifies = ap (λ (k : Pubkey). verify sig k (digest ++ nonce)) (sym owner) ∙ verifies;
          its_key = owner;
          its_solution = its;
        },
      )

  process_solution-IsSigned :
      (who addr : SocketAddr) (rest : List ℕ) (solution : S) (pubkey : Pubkey)
      → process_solution signing who (2 ∷ rest)
        ≡ continues (some (best_solution addr solution pubkey))
      → (addr ≡ who) × IsSigned (2 ∷ rest) solution pubkey
  unfolding process_solution
  process_solution-IsSigned who addr rest solution pubkey h =
      let d = 2 ∷ rest in
      elim (Bool-cases (ltb (length d) 57)) [
        | inl short ↦ absurd (ground (arith, h, short))
        | inr long ↦ elim (Bool-cases (is_utf8 (drop 57 d))) [
          | inr garbled ↦ absurd (ground (arith, h, long, garbled))
          | inl utf8 ↦ elim (Option-cases (from_str (drop 57 d))) [
            | inl unread ↦ absurd (ground (arith, h, long, utf8, unread))
            | inr (sig, reads) ↦
                read who addr rest solution pubkey sig long utf8 reads
                  (ground (arith, h, long, utf8, reads))
          ]
        ]
      ]

  process_binary-IsSigned :
      (who addr : SocketAddr) (d : List ℕ) (solution : S) (pubkey : Pubkey)
      → process_binary signing who d ≡ continues (some (best_solution addr solution pubkey))
      → (addr ≡ who) × ((d' : List ℕ) × (binary d ≡ binary d') × IsSigned d' solution pubkey)
  unfolding process_binary
  process_binary-IsSigned who addr [] solution pubkey h = absurd (cc h)
  process_binary-IsSigned who addr (t ∷ rest) solution pubkey h = elim (Bool-cases (nat_beq t 2)) [
    | inr other ↦ absurd (ground (arith, h, other))
    | inl two ↦
        let same : t ≡ 2 = ground (arith, two) in
        let h' : process_solution signing who (2 ∷ rest)
            ≡ continues (some (best_solution addr solution pubkey)) =
          subst
            (λ (k : ℕ).
              process_binary signing who (k ∷ rest)
              ≡ continues (some (best_solution addr solution pubkey)))
            same h in
        let (sender, is) = process_solution-IsSigned who addr rest solution pubkey h' in
        (sender, (2 ∷ rest, ap (λ (k : ℕ). binary (k ∷ rest)) same, is))
  ]

  process_message-IsSigned :
      (who addr : SocketAddr) (m : WsMessage) (solution : S) (pubkey : Pubkey)
      → process_message signing m who ≡ continues (some (best_solution addr solution pubkey))
      → (addr ≡ who) × ((d : List ℕ) × (m ≡ binary d) × IsSigned d solution pubkey)
  unfolding process_message
  process_message-IsSigned who addr text solution pubkey h = absurd (cc h)
  process_message-IsSigned who addr close solution pubkey h = absurd (cc h)
  process_message-IsSigned who addr pong_frame solution pubkey h = absurd (cc h)
  process_message-IsSigned who addr ping_frame solution pubkey h = absurd (cc h)
  process_message-IsSigned who addr (binary d) solution pubkey h =
      process_binary-IsSigned who addr d solution pubkey h

  IsSigned-process_solution :
      (who : SocketAddr) (d : List ℕ) (solution : S) (pubkey : Pubkey)
      → IsSigned d solution pubkey
      → process_message signing (binary d) who
        ≡ continues (some (best_solution who solution pubkey))
  unfolding process_message process_binary process_solution
  IsSigned-process_solution who d solution pubkey is =
      let (w1, w2, w3) = is.widths in
      let body = is.digest ++ (is.nonce ++ (is.key ++ is.signature_text)) in
      let (p1, p2, p3, p4) = slices is.digest is.nonce is.key is.signature_text w1 w2 w3 in
      let len : length body ≡ 56 + length is.signature_text = omega (
        arith,
        w1,
        w2,
        w3,
        length-append is.digest (is.nonce ++ (is.key ++ is.signature_text)),
        length-append is.nonce (is.key ++ is.signature_text),
        length-append is.key is.signature_text,
      ) in
      let long : ltb (length (2 ∷ body)) 57 ≡ false = ground (arith, len) in
      rw (
        is.layout, long, p1, p2, p3, p4, is.utf8, is.reads, is.its_key, is.verifies,
        is.its_solution,
      )

  -- Whoever sends a message, the channel gets a submission for it exactly if the message is binary, begins
  -- with a 2 and goes on with 16 bytes of digest, 8 of nonce, 32 of key and the text of a signature, which
  -- verifies under that key for digest and nonce; the submission is then that of digest and nonce, under
  -- that key, with the sender's address.
  pub process_message_iff :
      (who addr : SocketAddr) (m : WsMessage) (solution : S) (pubkey : Pubkey)
      → (process_message signing m who ≡ continues (some (best_solution addr solution pubkey)))
        ↔ ((addr ≡ who) × ((d : List ℕ) × (m ≡ binary d) × IsSigned d solution pubkey))
  process_message_iff who addr m solution pubkey = (
    process_message-IsSigned who addr m solution pubkey,
    λ (same, (d, its, is)).
        ap (λ (x : WsMessage). process_message signing x who) its
        ∙ IsSigned-process_solution who d solution pubkey is
        ∙ ap (λ (a : SocketAddr). continues (some (best_solution a solution pubkey))) (sym same),
  )
