-- ===== src/Proto/Messages/Credential.antt =====
-- `encode_credential` and `decode_credential` of src/proto/messages.h.
use native.Mathlib.Decide.{dec_le}
use morton.Base.{
  ℕ, zero, suc, ◌-◌, ◌*◌, ◌^◌, ◌≤◌, ◌<◌, ◌≡◌, ◌↔◌, ◌⊎◌, refl, ap, ◌∙◌, false, List, ◌++◌, none,
  some, ltb, ◌==◌, length, replicate, length-append, length-replicate, All, All-append,
  append_assoc, inl, inr, arith,
}
use morton.Base.BitList.{bits, length-bits}
use morton.Proto.Bitstream.Bytes.{flat, IsByte, flat-append, length-flat}
use morton.Proto.Bitstream.Writer.{BitWriter, new_writer, finished}
use morton.Proto.Bitstream.Writer.Emit.{
  Emits, Emits-trans, varint_bytes, varint_groups, string_bytes, string_bytes_whole, write_u8-Emits,
  write_u64-Emits, write_string-Emits,
}
use morton.Proto.Bitstream.Writer.Finish.{Emits-Builds}
use morton.Proto.Bitstream.Reader.{new_reader}
use morton.Proto.Bitstream.Reader.Take.{then_rest}
use morton.Proto.Bitstream.Reader.Fields.{
  new_reader-IsValid, read_u8-Reads, read_u64-Reads, read_string-Reads,
}
use morton.Proto.Packet.{fresh, new_reader-overflow, Decodes}
use morton.Proto.Messages.{
  ConnectCredential, CredentialKind, session, migration, kind_code, kind_of_code,
  connect_token_bytes, max_player_id_bytes, write_credential, encode_credential, decode_credential,
}

pub record IsCredential (credential : ConnectCredential) : Type 0 where
  pub token_fits : credential.token < 2 ^ 64
  pub player_id_bytes : All IsByte credential.player_id
  pub player_id_some : 1 ≤ length credential.player_id
  pub player_id_short : length credential.player_id ≤ max_player_id_bytes

abbrev credential_bits : ConnectCredential → List ℕ
credential_bits credential =
    bits 8 (kind_code credential.kind)
    ++ (bits 64 credential.token ++ flat (string_bytes credential.player_id))

kind_code-lt : (kind : CredentialKind) → kind_code kind < 2
kind_code-lt session = omega arith
kind_code-lt migration = omega arith

kind_of_code-kind_code : (kind : CredentialKind) → kind_of_code (kind_code kind) ≡ kind
kind_of_code-kind_code session = refl
kind_of_code-kind_code migration = refl

write_credential-Emits :
    (credential : ConnectCredential) (w : BitWriter)
    → IsCredential credential
    → Emits w (credential_bits credential) (write_credential credential w)
unfolding write_credential
write_credential-Emits credential w v =
    Emits-trans _ _ (write_u8-Emits w _ (omega (arith, kind_code-lt credential.kind))) (
      Emits-trans _ _ (write_u64-Emits _ credential.token v.token_fits)
        (write_string-Emits _ credential.player_id v.player_id_bytes))

one_group : (n : ℕ) → n < 128 → length (varint_bytes n) ≡ 1
unfolding varint_groups
one_group n h = ground arith

-- 30 bytes at most.
length-credential_bits :
    (credential : ConnectCredential)
    → IsCredential credential
    → length (credential_bits credential) ≤ 8 * 30
length-credential_bits credential v = omega (
  arith,
  length-append (bits 8 (kind_code credential.kind))
      (bits 64 credential.token ++ flat (string_bytes credential.player_id)),
  length-append (bits 64 credential.token) (flat (string_bytes credential.player_id)),
  length-bits 8 (kind_code credential.kind),
  length-bits 64 credential.token,
  length-flat (string_bytes credential.player_id),
  ap length (string_bytes_whole credential.player_id (omega (arith, v.player_id_short))),
  length-append (varint_bytes (length credential.player_id)) credential.player_id,
  one_group (length credential.player_id) (omega (arith, v.player_id_short)),
  v.player_id_short,
)

decoded :
    (credential : ConnectCredential)
    → IsCredential credential
    → Decodes decode_credential (credential_bits credential) credential
unfolding decode_credential
decoded credential v packet pad short bytes e =
    let known : ltb 1 (kind_code credential.kind) ≡ false =
      ground (arith, kind_code-lt credential.kind) in
    let some_id : (length credential.player_id == 0) ≡ false = ground (arith, v.player_id_some) in
    let short_id : ltb max_player_id_bytes (length credential.player_id) ≡ false =
      ground (arith, v.player_id_short) in
    let uncut : length credential.player_id < 1024 = omega (arith, v.player_id_short) in
    let code_fits : kind_code credential.kind < 2 ^ 8 =
      omega (arith, kind_code-lt credential.kind) in
    let start = new_reader-IsValid packet short bytes in
    let s1 =
      read_u8-Reads (kind_code credential.kind) code_fits (new_reader packet) _ start
        (then_rest _ _ pad (fresh packet e)) in
    let s2 =
      read_u64-Reads credential.token v.token_fits _ _ s1.valid (then_rest _ _ pad s1.left) in
    let s3 =
      read_string-Reads credential.player_id v.player_id_bytes uncut _ pad s2.valid s2.left in
    rw
      (
        s1.value,
        known,
        s3.latch ∙ s2.latch ∙ s1.latch ∙ new_reader-overflow packet,
        s3.value,
        some_id,
        short_id,
      )
      (λ i. some (record {
        kind = kind_of_code-kind_code credential.kind i;
        token = s2.value i;
        player_id = credential.player_id;
      }))

All-replicate : (n : ℕ) → All IsByte (replicate n 0)
All-replicate zero = tt
All-replicate (suc n) = (omega arith, All-replicate n)

-- A credential with a player id of 1 to 20 bytes is encoded in exactly 32 bytes, which decode to
-- it.
pub encode_credential-decode :
    (credential : ConnectCredential)
    → IsCredential credential
    → (token : List ℕ) × (encode_credential credential ≡ some token)
      × (length token ≡ connect_token_bytes)
      × (decode_credential token ≡ some credential)
unfolding encode_credential
encode_credential-decode credential v =
    let w : BitWriter = write_credential credential (new_writer connect_token_bytes) in
    let some_id : (length credential.player_id == 0) ≡ false = ground (arith, v.player_id_some) in
    let short_id : ltb max_player_id_bytes (length credential.player_id) ≡ false =
      ground (arith, v.player_id_short) in
    let built =
      Emits-Builds connect_token_bytes (credential_bits credential) w (omega arith)
        (write_credential-Emits credential (new_writer connect_token_bytes) v) in
    let clear = built.flag.1 (omega (arith, length-credential_bits credential v)) in
    let (pad, begins, bytes, short) = built.holds clear in
    let fill : List ℕ = replicate (connect_token_bytes - length (finished w)) 0 in
    let whole : length (finished w ++ fill) ≡ connect_token_bytes = omega (
      arith,
      short,
      length-append (finished w) fill,
      length-replicate {A = ℕ} (connect_token_bytes - length (finished w)) 0,
    ) in
    (
      finished w ++ fill,
      rw (some_id, short_id, clear),
      whole,
      decoded credential v (finished w ++ fill) (pad ++ flat fill) (omega (arith, whole))
          (All-append IsByte (finished w) fill bytes
            (All-replicate (connect_token_bytes - length (finished w))))
          (flat-append (finished w) fill
            ∙ ap (λ (xs : List ℕ). xs ++ flat fill) begins
            ∙ append_assoc (credential_bits credential) pad (flat fill)),
    )

-- With a 64-bit token, the encoder refuses a credential exactly where its player id is empty or longer than 20 bytes.
pub encode_credential-eq-none_iff :
    (credential : ConnectCredential)
    → credential.token < 2 ^ 64
    → All IsByte credential.player_id
    → (encode_credential credential ≡ none)
      ↔ ((length credential.player_id ≡ 0) ⊎ (max_player_id_bytes < length credential.player_id))
unfolding encode_credential
encode_credential-eq-none_iff credential fits bytes = (refused, λ h. ground arith)
  where
    refused :
        encode_credential credential ≡ none
        → (length credential.player_id ≡ 0) ⊎ (max_player_id_bytes < length credential.player_id)
    refused e = elim (dec_le 1 (length credential.player_id)) [
      | yes some_id ↦ elim (dec_le (length credential.player_id) max_player_id_bytes) [
        | yes short ↦
            let (token, ok, _, _) = encode_credential-decode credential (record {
              token_fits = fits;
              player_id_bytes = bytes;
              player_id_some = some_id;
              player_id_short = short;
            }) in
            cc (e, ok)
        | no long ↦ inr (omega arith)
      ]
      | no empty ↦ inl (omega arith)
    ]

-- What decodes has a player id of 1 to 20 bytes, whatever the token.
pub decode_credential_bounds :
    (bytes : List ℕ) (credential : ConnectCredential)
    → decode_credential bytes ≡ some credential
    → (1 ≤ length credential.player_id) × (length credential.player_id ≤ max_player_id_bytes)
unfolding decode_credential
decode_credential_bounds bytes credential e = ground arith
