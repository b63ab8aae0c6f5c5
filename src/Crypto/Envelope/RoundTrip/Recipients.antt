-- ===== src/Crypto/Envelope/RoundTrip/Recipients.antt =====
-- The recipient table, written and parsed.
use mathlib.Core.List.{append_assoc}
use family_messenger_e2e.Base.{
  ℕ, suc, ◌+◌, ◌*◌, ◌≡◌, refl, ap, ◌∙◌, subst, some, List, [], ◌∷◌, ◌++◌, length, drop, field_at,
  find, Text, ◌===◌, arith, Bool-cases, inl, inr,
}
use family_messenger_e2e.Base.Outcome.{ok, bind_inv}
use family_messenger_e2e.Crypto.Bytes.{Bytes}
use family_messenger_e2e.Crypto.Ids.RoundTrip.{IsIdOf, uuid_to_bytes_id, bytes_to_uuid_id}
use family_messenger_e2e.Crypto.Primitives.{Library, IsStandard, key_size}
use family_messenger_e2e.Crypto.Seal.{sealed_key_size, seal_with}
use family_messenger_e2e.Crypto.Seal.RoundTrip.{length-seal_with}
use family_messenger_e2e.Crypto.Envelope.Header.{Recipient, SealedRecipient, recipient_entry}
use family_messenger_e2e.Crypto.Envelope.Encrypt.{write_recipients}
use family_messenger_e2e.Crypto.Envelope.Parse.{parse_recipients}

-- The recipients' accounts are canonical ids.
abbrev pub AreIds : List Recipient → Type 0
AreIds [] = Unit
AreIds (rc ∷ recipients) = ((b : Bytes) × IsIdOf rc.account b) × AreIds recipients

module _ (l : Library) (conv key : Bytes) where
  -- Each entry is for its recipient's account, and holds the key sealed to its public key.
  pub data SealedTo : List Recipient → List SealedRecipient → Type 0 where
    none_left : SealedTo [] []
    sealed_to :
        {rc : Recipient} {sr : SealedRecipient} {rs : List Recipient} {srs : List SealedRecipient}
        (eph account : Bytes)
        → IsIdOf rc.account account
        → rc.account ≡ sr.account
        → seal_with l eph rc.enc_pub conv account key ≡ ok sr.sealed_key
        → SealedTo rs srs
        → SealedTo (rc ∷ rs) (sr ∷ srs)

  -- The entry that `decrypt` finds for an account is that of the first recipient with it.
  pub record Entry (rc : Recipient) (srs : List SealedRecipient) (account : Text) : Type 0 where
    pub sealed : SealedRecipient
    pub eph : Bytes
    pub account_bytes : Bytes
    pub is_id : IsIdOf rc.account account_bytes
    pub found : find (λ r. r.account === account) srs ≡ some sealed
    pub made : seal_with l eph rc.enc_pub conv account_bytes key ≡ ok sealed.sealed_key

  pub find-SealedTo :
      (account : Text) {rs : List Recipient} {srs : List SealedRecipient} (rc : Recipient)
      → SealedTo rs srs
      → find (λ r. r.account === account) rs ≡ some rc
      → Entry rc srs account
  unfolding find
  find-SealedTo account rc none_left h = cc
  find-SealedTo account rc (sealed_to {rc = r} {sr = s} eph b id same made rest) h =
      elim (Bool-cases (r.account === account)) [
        | inl hit ↦
            (let e : r ≡ rc = ground arith in
              record {
                sealed = s;
                eph = eph;
                account_bytes = b;
                is_id = subst (λ (x : Recipient). IsIdOf x.account b) e id;
                found = rw (← same) (rw hit refl);
                made =
                    subst
                      (λ (x : Recipient). seal_with l eph x.enc_pub conv b key ≡ ok s.sealed_key) e
                      made;
              })
        | inr miss ↦
            (let below = find-SealedTo account rc rest (rw miss at h) in
              record {
                sealed = below.sealed;
                eph = below.eph;
                account_bytes = below.account_bytes;
                is_id = below.is_id;
                found = rw (← same) (rw miss below.found);
                made = below.made;
              })
      ]

  pub record Table (off : ℕ) (env rest : Bytes) (recipients : List Recipient) : Type 0 where
    pub entries : List SealedRecipient
    pub parsed : parse_recipients (length recipients) off env ≡ ok entries
    pub sealed : SealedTo recipients entries
    pub after : drop (off + length recipients * recipient_entry) env ≡ rest

module _ (l : Library) (std : IsStandard l) (conv key : Bytes)
    (key_length : length key ≡ key_size) where
  -- One entry before the table of the others.
  cons-Table :
      (rc : Recipient) (rs : List Recipient) (off : ℕ) (env b eph box below rest : Bytes)
      → IsIdOf rc.account b
      → seal_with l eph rc.enc_pub conv b key ≡ ok box
      → drop off env ≡ (b ++ (box ++ below)) ++ rest
      → (drop (off + recipient_entry) env ≡ below ++ rest
          → Table l conv key (off + recipient_entry) env rest rs)
      → Table l conv key off env rest (rc ∷ rs)
  unfolding parse_recipients
  cons-Table rc rs off env b eph box below rest id made at others =
      let joined : drop off env ≡ b ++ (box ++ (below ++ rest)) = at ∙ (simp append_assoc) in
      let (front, at1) = field_at off 16 env b (box ++ (below ++ rest)) joined id.sized in
      let (middle, at2) =
        field_at (off + 16) sealed_key_size env box (below ++ rest) at1
          (length-seal_with l std eph rc.enc_pub conv b key box key_length made) in
      let shift : off + recipient_entry ≡ off + 16 + sealed_key_size = omega arith in
      let t = others (ap (λ k. drop k env) shift ∙ at2) in
      let far : off + suc (length rs) * recipient_entry
          ≡ off + recipient_entry + length rs * recipient_entry =
        omega arith in
      record {
        entries = record { account = rc.account; sealed_key = box } ∷ t.entries;
        parsed = rw front (rw (bytes_to_uuid_id id) (rw t.parsed (rw middle refl)));
        sealed = sealed_to eph b id refl made t.sealed;
        after = ap (λ k. drop k env) far ∙ t.after;
      }

  pub parse-write_recipients :
      (recipients : List Recipient) (ephemeral : List Bytes) (off : ℕ) (env table rest : Bytes)
      → AreIds recipients
      → length ephemeral ≡ length recipients
      → write_recipients l conv key recipients ephemeral ≡ ok table
      → drop off env ≡ table ++ rest
      → Table l conv key off env rest recipients
  unfolding write_recipients parse_recipients
  parse-write_recipients [] [] off env table rest ids n w at = record {
    entries = [];
    parsed = refl;
    sealed = none_left;
    after = ap (λ k. drop k env) (let e : off + 0 ≡ off = omega arith in e) ∙ at ∙ cc;
  }
  parse-write_recipients [] (e ∷ es) off env table rest ids n w at = absurd (omega arith)
  parse-write_recipients (rc ∷ rs) [] off env table rest ids n w at = absurd (omega arith)
  parse-write_recipients (rc ∷ rs) (eph ∷ es) off env table rest ids n w at =
      let (b, id) = ids.0 in
      let (box, made, w2) =
        bind_inv (seal_with l eph rc.enc_pub conv b key) _ (rw (uuid_to_bytes_id id) at w) in
      let (below, written, w3) = bind_inv (write_recipients l conv key rs es) _ w2 in
      let split : table ≡ b ++ (box ++ below) = cc in
      cons-Table rc rs off env b eph box below rest id made (at ∙ ap (λ t. t ++ rest) split) λ next.
        parse-write_recipients rs es (off + recipient_entry) env below rest ids.1 (omega arith)
          written next
