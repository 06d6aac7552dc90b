-- ===== src/Types/Sample.antt =====
-- A concrete execution client for tests: a payload is a list of two hashes, texts are coded with an
-- end mark, and the hash keeps the first 32 bytes. It meets every law of `Primitives`, so the
-- theorems that suppose the laws speak of something.
pub mod Blocks
use sahya_net.Prelude.{
  ℕ, zero, suc, ◌+◌, ◌<◌, ◌≤◌, ◌≡◌, refl, ap, ◌∙◌, List, [], ◌∷◌, ◌++◌, map, Option, none, some,
  Bytes, length, take, drop, replicate, All, length-append, take-append, drop-append, length-take,
  length-replicate, arith,
}
use mathlib.Core.List.{append_assoc}
use sahya_net.Types.Digest.{Digest, IsDigest}
use sahya_net.Types.Reading.{Reading, done, invalid, panic}
use sahya_net.Types.Primitives.{
  Primitives, PrimitivesLaws, Field, bytes32, uint64, payload, requests, u256, FieldType,
  bytes32_type, uint64_type, payload_type, requests_type, u256_type, type_of, IsField, fixed_len,
  offset_of, variable_part, variable_len,
}

-- Texts, each with its end mark 0.
abbrev mark : Bytes → Bytes → Bytes
mark [] rest = 0 ∷ rest
mark (b ∷ t) rest = suc b ∷ mark t rest

abbrev pub texts : List Bytes → Bytes
texts [] = []
texts (t ∷ l) = mark t (texts l)

abbrev push : ℕ → List Bytes → List Bytes
push b [] = (b ∷ []) ∷ []
push b (t ∷ l) = (b ∷ t) ∷ l

abbrev untexts : Bytes → List Bytes
untexts [] = []
untexts (zero ∷ r) = [] ∷ untexts r
untexts (suc b ∷ r) = push b (untexts r)

untexts-mark : (t r : Bytes) → untexts (mark t r) ≡ t ∷ untexts r
untexts-mark [] r = refl
untexts-mark (b ∷ t) r = ap (push b) (untexts-mark t r)

untexts-texts : (l : List Bytes) → untexts (texts l) ≡ l
untexts-texts [] = refl
untexts-texts (t ∷ l) = untexts-mark t (texts l) ∙ ap (λ k. t ∷ k) (untexts-texts l)

abbrev pub hash : Bytes → Digest
hash bs = take 32 (bs ++ replicate 32 0)

abbrev word : ℕ → ℕ → Bytes
word n w = n ∷ replicate w 0

abbrev pub first_of_two : List Bytes → Digest
first_of_two [] = []
first_of_two (a ∷ l) = a

abbrev pub second_of_two : List Bytes → Digest
second_of_two [] = []
second_of_two (a ∷ l) = first_of_two l

abbrev encode_field : Field (List Bytes) → Bytes
encode_field (bytes32 d) = d
encode_field (uint64 n) = word n 7
encode_field (payload p) = word (length (texts p)) 3 ++ texts p
encode_field (requests l) = word (length (texts l)) 3 ++ texts l
encode_field (u256 n) = word n 31

abbrev pub encode_fields : ℕ → List (Field (List Bytes)) → Bytes
encode_fields offset [] = []
encode_fields offset (f ∷ fs) = encode_field f ++ encode_fields offset fs

abbrev head_or : Bytes → ℕ
head_or [] = 0
head_or (n ∷ r) = n

abbrev decode_field : FieldType → Bytes → Field (List Bytes) × Bytes
decode_field bytes32_type bs = (bytes32 (take 32 bs), drop 32 bs)
decode_field uint64_type bs = (uint64 (head_or bs), drop 8 bs)
decode_field payload_type bs =
    (payload (untexts (take (head_or bs) (drop 4 bs))), drop (head_or bs) (drop 4 bs))
decode_field requests_type bs =
    (requests (untexts (take (head_or bs) (drop 4 bs))), drop (head_or bs) (drop 4 bs))
decode_field u256_type bs = (u256 (head_or bs), drop 32 bs)

abbrev decode_list : List FieldType → Bytes → List (Field (List Bytes))
decode_list [] bs = []
decode_list (t ∷ ts) bs = let (f, r) = decode_field t bs in f ∷ decode_list ts r

abbrev pub decode_fields : List FieldType → Bytes → Option (List (Field (List Bytes)))
decode_fields ts bs = some (decode_list ts bs)

abbrev whole : (A : Type 0) → Reading A → Reading A
whole A (done a []) = done a []
whole A (done a (b ∷ r)) = invalid
whole A invalid = invalid
whole A panic = panic

abbrev pub sample : Primitives
sample = record {
  Payload = List Bytes;
  parent_hash = first_of_two;
  block_hash = second_of_two;
  default_payload = [];
  sha256 = hash;
  payload_ssz = texts;
  requests_ssz = texts;
  u256_ssz = λ n. word n 31;
  payload_len = λ p. length (texts p);
  requests_len = λ l. length (texts l);
  encode_container = encode_fields;
  decode_container = decode_fields;
  decode = λ A r bs. whole A (r bs);
}

decode_field-encode_field :
    (f : Field (List Bytes)) (r : Bytes)
    → IsField f
    → decode_field (type_of f) (encode_field f ++ r) ≡ (f, r)
decode_field-encode_field (bytes32 d) r h = rw (take-append d r 32 h, drop-append d r 32 h)
decode_field-encode_field (uint64 n) r h = refl
decode_field-encode_field (payload p) r h = rw (
  take-append (texts p) r (length (texts p)) refl,
  drop-append (texts p) r (length (texts p)) refl,
  untexts-texts p,
)
decode_field-encode_field (requests l) r h = rw (
  take-append (texts l) r (length (texts l)) refl,
  drop-append (texts l) r (length (texts l)) refl,
  untexts-texts l,
)
decode_field-encode_field (u256 n) r h = refl

decode_list-encode_fields :
    (offset : ℕ) (fs : List (Field (List Bytes)))
    → All IsField fs
    → decode_list (map type_of fs) (encode_fields offset fs) ≡ fs
decode_list-encode_fields offset [] h = refl
decode_list-encode_fields offset (f ∷ fs) h = rw (
  decode_field-encode_field f (encode_fields offset fs) h.0,
  decode_list-encode_fields offset fs h.1,
)

length-encode_field :
    (f : Field (List Bytes))
    → IsField f
    → length (encode_field f) ≡ fixed_len (type_of f) + variable_len sample f
length-encode_field (bytes32 d) h = omega arith
length-encode_field (uint64 n) h = refl
length-encode_field (payload p) h = omega arith
length-encode_field (requests l) h = omega arith
length-encode_field (u256 n) h = refl

length-encode_fields :
    (offset : ℕ) (fs : List (Field (List Bytes)))
    → All IsField fs
    → length (encode_fields offset fs) ≡ offset_of fs + variable_part sample fs
length-encode_fields offset [] h = refl
length-encode_fields offset (f ∷ fs) h = omega (
  arith,
  length-append (encode_field f) (encode_fields offset fs),
  length-encode_field f h.0,
  length-encode_fields offset fs h.1,
)

pub length-hash : (bs : Bytes) → IsDigest (hash bs)
length-hash bs =
    length-take 32 (bs ++ replicate 32 0) (omega (arith, length-append bs (replicate 32 0)))

whole-done :
    (A : Type 0) (r : Reading A) (a : A) (rest : Bytes) → whole A r ≡ done a rest → r ≡ done a []
whole-done A r a rest h = ground arith

pub sample_laws : PrimitivesLaws sample
sample_laws = record {
  sha256_size = length-hash;
  payload_len_lem = λ p. refl;
  requests_len_lem = λ l. refl;
  u256_size = λ n h. refl;
  container_size = λ fs h. length-encode_fields (offset_of fs) fs h;
  container_decodes = λ fs h fits. ap some (decode_list-encode_fields (offset_of fs) fs h);
  decode_done = λ A r bs a h. rw h;
  decode_reads = λ A r bs a rest h. whole-done A (r bs) a rest h;
  decode_panics = λ A r bs h. rw h;
}
