-- ===== src/Cracking/Oracle.antt =====
-- The calls of the crate `preimage` in src/cracking.rs.
use crackstation_rust.Base.{
  ℕ, Bool, true, false, String, Option, none, some, List, [], ◌∷◌, map, Text, codes, contains,
  if◌then◌else◌, ◌>>=◌,
}
use crackstation_rust.Cracking.Results.{CrackMatch, CrackResult}
use crackstation_rust.Cracking.Display.{Codec, near_miss_new, display_plaintext}

-- What the program reads of a `LookupMatch` of the crate.
pub record LookupMatch : Type 0 where
  pub plaintext : List ℕ
  pub algorithm_name : Text
  pub is_full : Bool
  pub recomputed_hash : List ℕ

-- `HashResult` of the crate.
pub data HashResult : Type 0 where
  invalid_format : Text → HashResult
  lookup : Text → List LookupMatch → ℕ → HashResult

-- `PreimageOracle::crack_with_limit(hashes, early_exit, limit)`; `none` is an `Err`.
abbrev pub CrackWithLimit : Type 0
CrackWithLimit = List Text → Bool → ℕ → Option (List HashResult)

abbrev pub max_matches_per_hash : ℕ
max_matches_per_hash = 20

-- The closure on one match.
unfoldable pub crack_match : Codec → Text → LookupMatch → CrackMatch
crack_match codec queried_hash lm = record {
  plaintext = display_plaintext codec lm.plaintext;
  algorithm_name = lm.algorithm_name;
  near_miss =
      if lm.is_full
      then none
      else some (near_miss_new queried_hash (codec.hex_encode lm.recomputed_hash));
}

-- The closure on one result.
unfoldable pub crack_result : Codec → HashResult → CrackResult
unfolding crack_match
crack_result codec (invalid_format input) = record {
  hash = input;
  matches = [];
  total_matches = 0;
  format_error = true;
}
crack_result codec (lookup queried_hash matches total_matches) = record {
  hash = queried_hash;
  matches = map (crack_match codec queried_hash) matches;
  total_matches = total_matches;
  format_error = false;
}

-- `none` is the panic of `expect` on a failed lookup.
unfoldable pub crack_hashes : Codec → CrackWithLimit → List Text → Option (List CrackResult)
unfolding crack_result
crack_hashes codec oracle hashes = do
  results ← oracle hashes true max_matches_per_hash
  some (map (crack_result codec) results)

-- The algorithms of the crate that the tables name.
pub data Algorithm : Type 0 where
  lm ntlm mysql41 md5md5 md5 sha1 md2 md4 sha256 sha224 sha384 sha512 whirlpool : Algorithm
  ripemd160 qubesv31 : Algorithm

pub record Table : Type 0 where
  pub label : Text
  pub idx_name : Text
  pub algorithm : Algorithm

abbrev table : String → String → Algorithm → Table
table label idx_name algorithm = record {
  label = codes label;
  idx_name = codes idx_name;
  algorithm = algorithm;
}

abbrev pub tables : List Table
tables =
    table "lm" "lm.idx" lm
    ∷ table "ntlm" "ntlm.idx" ntlm
    ∷ table "mysql4.1+" "mysql4.1+.idx" mysql41
    ∷ table "md5md5" "md5md5.idx" md5md5
    ∷ table "md5" "md5.idx" md5
    ∷ table "sha1" "sha1.idx" sha1
    ∷ table "md2" "md2.idx" md2
    ∷ table "md4" "md4.idx" md4
    ∷ table "sha256" "sha256.idx" sha256
    ∷ table "sha224" "sha224.idx" sha224
    ∷ table "sha384" "sha384.idx" sha384
    ∷ table "sha512" "sha512.idx" sha512
    ∷ table "whirlpool" "whirlpool.idx" whirlpool
    ∷ table "ripemd160" "ripemd160.idx" ripemd160
    ∷ table "qubesv3.1" "qubesv3.1.idx" qubesv31
    ∷ table "md5-huge" "md5-huge.idx" md5
    ∷ table "sha1-huge" "sha1-huge.idx" sha1
    ∷ []

-- `Path::join` of the standard library, and `PreimageOracle::register` of the crate: an error is
-- `none`.
module _ {Location Oracle : Type 0} (join : Location → Text → Location)
    (register : Text → Algorithm → Location → Location → Oracle → Option Oracle) where
  dictionary : Location → Text → Location
  dictionary cracking_dir label =
      if contains (codes "huge") label
      then join cracking_dir (codes "HUGELIST.lst")
      else join cracking_dir (codes "REALUNIQ.lst")

  -- The loop; `none` is the panic on a table that does not load.
  register_all : Location → List Table → Oracle → Option Oracle
  unfolding dictionary
  register_all cracking_dir [] oracle = some oracle
  register_all cracking_dir (t ∷ ts) oracle = do
    oracle ←
        register t.label t.algorithm (join cracking_dir t.idx_name)
          (dictionary cracking_dir t.label) oracle
    register_all cracking_dir ts oracle

  unfoldable pub init_oracle : Oracle → Location → Option Oracle
  unfolding register_all
  init_oracle new cracking_dir = register_all cracking_dir tables new
