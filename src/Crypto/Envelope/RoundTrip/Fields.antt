-- ===== src/Crypto/Envelope/RoundTrip/Fields.antt =====
-- The fields of the fixed header at their offsets.
use mathlib.Core.List.{append_assoc}
use family_messenger_e2e.Base.{
  ℕ, ◌+◌, ◌%◌, ◌≤◌, ◌<◌, ◌≡◌, refl, ap, ◌∙◌, sym, true, ◌∷◌, ◌++◌, length, length-append, drop,
  field_at, arith,
}
use family_messenger_e2e.Base.Outcome.{ok, ok-injective}
use family_messenger_e2e.Crypto.Bytes.{Bytes}
use family_messenger_e2e.Crypto.Ids.{bytes_to_uuid}
use family_messenger_e2e.Crypto.Ids.RoundTrip.{IsIdOf, uuid_to_bytes_id, bytes_to_uuid_id}
use family_messenger_e2e.Crypto.Envelope.Numbers.{
  put_uint, length-put_uint, get_uint, get_uint-put_uint, limit,
}
use family_messenger_e2e.Crypto.Envelope.Header.{version, max_recipients, fixed_header, Header}
use family_messenger_e2e.Crypto.Envelope.Encrypt.{write_header}
use family_messenger_e2e.Crypto.Envelope.Parse.{subarray, flags_of, has_version, parse_header}

-- The header's ids are canonical, and its timestamp fits in the field of 64 bits.
pub record HasIds (hdr : Header) : Type 0 where
  pub conv : Bytes
  pub sender : Bytes
  pub device : Bytes
  pub client : Bytes
  pub conv_id : IsIdOf hdr.conv_id conv
  pub sender_account : IsIdOf hdr.sender_account sender
  pub sender_device : IsIdOf hdr.sender_device device
  pub client_msg_id : IsIdOf hdr.client_msg_id client
  pub timestamp : hdr.timestamp_ms < limit 8

pub record Fields (hdr : Header) (n : ℕ) (env rest : Bytes) : Type 0 where
  pub version_ok : has_version env ≡ true
  pub count : get_uint (subarray env 74 2) ≡ n
  pub parsed : parse_header env ≡ ok (record hdr { flags = hdr.flags % 256 })
  pub after : drop fixed_header env ≡ rest

module _ (hdr : Header) (ids : HasIds hdr) (n : ℕ) (few : n ≤ max_recipients) where
  abbrev pub layout : Bytes → Bytes
  layout rest =
      version
      ∷ (hdr.flags % 256)
      ∷ (ids.conv
          ++ (ids.sender
              ++ (ids.device
                  ++ (ids.client ++ (put_uint 8 hdr.timestamp_ms ++ (put_uint 2 n ++ rest))))))

  pub Fields-layout : (env rest : Bytes) → env ≡ layout rest → Fields hdr n env rest
  unfolding parse_header
  Fields-layout env rest e =
      let c0 : drop 2 env ≡ ids.conv ++ _ = ap (drop 2) e in
      let (v0, c1) = field_at 2 16 env ids.conv _ c0 ids.conv_id.sized in
      let (v1, c2) = field_at 18 16 env ids.sender _ c1 ids.sender_account.sized in
      let (v2, c3) = field_at 34 16 env ids.device _ c2 ids.sender_device.sized in
      let (v3, c4) = field_at 50 16 env ids.client _ c3 ids.client_msg_id.sized in
      let (v4, c5) =
        field_at 66 8 env (put_uint 8 hdr.timestamp_ms) _ c4 (length-put_uint 8 hdr.timestamp_ms) in
      let (v5, c6) = field_at 74 2 env (put_uint 2 n) rest c5 (length-put_uint 2 n) in
      let p0 : bytes_to_uuid (subarray env 2 16) ≡ ok hdr.conv_id =
        ap bytes_to_uuid v0 ∙ bytes_to_uuid_id ids.conv_id in
      let p1 : bytes_to_uuid (subarray env 18 16) ≡ ok hdr.sender_account =
        ap bytes_to_uuid v1 ∙ bytes_to_uuid_id ids.sender_account in
      let p2 : bytes_to_uuid (subarray env 34 16) ≡ ok hdr.sender_device =
        ap bytes_to_uuid v2 ∙ bytes_to_uuid_id ids.sender_device in
      let p3 : bytes_to_uuid (subarray env 50 16) ≡ ok hdr.client_msg_id =
        ap bytes_to_uuid v3 ∙ bytes_to_uuid_id ids.client_msg_id in
      let time : get_uint (subarray env 66 8) ≡ hdr.timestamp_ms =
        ap get_uint v4 ∙ get_uint-put_uint 8 hdr.timestamp_ms ids.timestamp in
      let flags : flags_of env ≡ hdr.flags % 256 = ap flags_of e in
      record {
        version_ok = ap has_version e;
        count = ap get_uint v5 ∙ get_uint-put_uint 2 n (omega arith);
        parsed = rw p0 (rw p1 (rw p2 (rw p3 (rw time (rw flags refl)))));
        after = c6;
      }

  pub length-layout : (rest : Bytes) → length (layout rest) ≡ fixed_header + length rest
  length-layout rest = simp length-append (
      omega (
        arith,
        ids.conv_id.sized,
        ids.sender_account.sized,
        ids.sender_device.sized,
        ids.client_msg_id.sized,
        length-put_uint 8 hdr.timestamp_ms,
        length-put_uint 2 n,
      ))

  pub layout-write_header :
      (head rest : Bytes) → write_header hdr n ids.conv ≡ ok head → head ++ rest ≡ layout rest
  unfolding write_header
  layout-write_header head rest h =
      let parts = rw (uuid_to_bytes_id ids.client_msg_id) at (
        rw (uuid_to_bytes_id ids.sender_device) at
          (rw (uuid_to_bytes_id ids.sender_account) at h)) in
      ap (λ x. x ++ rest) (sym (ok-injective parts)) ∙ (simp append_assoc)
