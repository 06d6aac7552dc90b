-- ===== src/Node/Testnet/Separate.antt =====
-- The nodes of a local network share no port and no folder.
use sahya_net.Prelude.{
  ℕ, zero, suc, ◌+◌, ◌-◌, ◌*◌, ◌/◌, ◌%◌, ◌<◌, ◌≤◌, ◌≡◌, ◌≢◌, refl, sym, ap, ◌∙◌, inl, inr, [], ◌∷◌,
  ◌++◌, Bytes, ltb, leb, ◌&&◌, if◌then◌else◌, true, ltb→lt, drop, Bool-cases, arith,
}
use sahya_net.Node.Paths.{slash}
use sahya_net.Node.Startup.{Flags}
use sahya_net.Node.Testnet.{decimal_from, decimal, node_prefix, get_node_flags}

-- The number that the digits at the front of a text make, behind the number that was read before.
unfoldable reads : ℕ → Bytes → ℕ
reads n [] = n
reads n (c ∷ text) =
    let more = reads (n * 10 + (c - 48)) text in if leb 48 c && ltb c 58 then more else n

reads-digit :
    (m d : ℕ) (rest : Bytes) → d < 10 → reads m ((48 + d) ∷ rest) ≡ reads (m * 10 + d) rest
unfolding reads
reads-digit m d rest h =
    let same : 48 + d - 48 ≡ d = omega arith in
    let low : leb 48 (48 + d) ≡ true = ground arith in
    let high : ltb (48 + d) 58 ≡ true = ground arith in rw (low, high, same) refl

append_one : (l : Bytes) (c : ℕ) (rest : Bytes) → (l ++ c ∷ []) ++ rest ≡ l ++ c ∷ rest
append_one [] c rest = refl
append_one (b ∷ l) c rest = ap (λ t. b ∷ t) (append_one l c rest)

reads-decimal_from :
    (digits n : ℕ) (rest : Bytes)
    → n < digits
    → reads 0 (decimal_from digits n ++ rest) ≡ reads n rest
unfolding decimal_from reads
reads-decimal_from zero n rest h = absurd (omega arith)
reads-decimal_from (suc digits) n rest h = elim (Bool-cases (ltb n 10)) [
  | inl small ↦
      let same : 0 * 10 + n ≡ n = omega arith in
      rw small
        (reads-digit 0 n rest (omega (arith, ltb→lt n 10 small)) ∙ ap (λ m. reads m rest) same)
  | inr large ↦
      let whole : n / 10 * 10 + n % 10 ≡ n = omega arith in
      let big : 10 ≤ n = ground arith in
      rw large (
        ap (reads 0) (append_one (decimal_from digits (n / 10)) (48 + n % 10) rest)
        ∙ reads-decimal_from digits (n / 10) ((48 + n % 10) ∷ rest) (omega arith)
        ∙ reads-digit (n / 10) (n % 10) rest (omega arith)
        ∙ ap (λ m. reads m rest) whole)
]

-- Behind a number and a text that does not begin with a digit, the number can be read off.
reads-decimal : (n : ℕ) (rest : Bytes) → reads 0 (decimal n ++ slash ∷ rest) ≡ n
unfolding decimal reads
reads-decimal n rest = reads-decimal_from (suc n) n (slash ∷ rest) (omega arith)

folder_injective :
    (n m : ℕ) (rest : Bytes)
    → node_prefix ++ decimal n ++ slash ∷ rest ≡ node_prefix ++ decimal m ++ slash ∷ rest
    → n ≡ m
folder_injective n m rest h =
    sym (reads-decimal n rest) ∙ ap (λ t. reads 0 (drop 12 t)) h ∙ reads-decimal m rest

pub decimal_injective : (n m : ℕ) → decimal_from (suc n) n ≡ decimal_from (suc m) m → n ≡ m
unfolding decimal
decimal_injective n m h = folder_injective n m [] (ap (λ text. node_prefix ++ text ++ slash ∷ []) h)

-- What two nodes on one machine must not share.
pub record AreSeparate (f g : Flags) : Type 0 where
  pub port : f.port ≢ g.port
  pub prom_port : f.prom_port ≢ g.prom_port
  pub no_clash : f.port ≢ g.prom_port
  pub no_clash_back : f.prom_port ≢ g.port
  pub key_path : f.key_path ≢ g.key_path
  pub share_path : f.share_path ≢ g.share_path
  pub store_path : f.store_path ≢ g.store_path

-- Any two of the first 200 nodes of a local network have different ports, for the consensus and for
-- the metrics and between the two, and different files for the key, the share and the store.
pub get_node_flags-AreSeparate :
    (n m : ℕ) → n < 200 → m < 200 → n ≢ m → AreSeparate (get_node_flags n) (get_node_flags m)
unfolding get_node_flags
get_node_flags-AreSeparate n m hn hm differ = record {
  port = λ e. omega arith;
  prom_port = λ e. omega arith;
  no_clash = λ e. omega arith;
  no_clash_back = λ e. omega arith;
  key_path = λ e. differ (folder_injective n m _ e);
  share_path = λ e. differ (folder_injective n m _ e);
  store_path = λ e. differ (folder_injective n m _ e);
}
