-- ===== src/Examples/Startups.antt =====
-- The theorems on the start of a library with log files, on the entries of `tabs_meta` and on the
-- collector, at concrete entries and files.
use pi_db.Base.{
  if◌then◌else◌, nat_eq, list_eq, pair_eq, length, ℕ, zero, suc, ◌≡◌, refl, ◌⊎◌, true, false, not,
  Option, none, some, List, [], ◌∷◌, ◌++◌, arith,
}
use pi_db.Data.{Bytes, io_error, ok, err}
use pi_db.HashMap.{lookup, insert}
use pi_db.Examples.{MemFile}
use pi_db.Examples.Forks.{root_info, leaf_info}
use pi_db.Examples.Changes.{Infos, infos}
use pi_db.Fork.{TableMetaInfo, finished, panicked}
use pi_db.Fork.Codec.{Wire, Bon, encode_info, decode_info}
use pi_db.Fork.Stored.{decode_info-encode_info}
use pi_db.LogStore.{AsyncLogFileStore, Stats}
use pi_db.LogStore.File.{plain_append}
use pi_db.Ware.Startup.{Opening, Registered, register_all}
use pi_db.Ware.Registered.{IsRegistered}
use pi_db.Ware.Ordered.{IsRanked, ParentsFirst, register_all-decides}
use pi_db.Ware.Collector.{Collecting, collect_store}
use pi_db.Ware.Selected.{chosen, paths_of, has_no_key, collect_store-keeps}

-- a name is its one byte, and an entry is one of two
abbrev opening : Opening Infos ℕ ℕ
opening = record {
  name_of = λ k. elim k [ [] ↦ none | n ∷ _ ↦ some n ];
  info_of = λ v. elim v [ [] ↦ some root_info | _ ∷ _ ↦ some leaf_info ];
  put = λ m n i. (true, infos.upsert m n i);
}

abbrev empty : Registered Infos ℕ ℕ
empty = record { map = []; cells = []; all_tables = []; tasks = [] }

no_tables : IsRanked {Atom = ℕ} {EnumType = ℕ} [] 0
unfolding lookup
no_tables = record {
  rank = λ n. 0;
  bounded = λ n t e. ground arith;
  present = λ n p t e f. ground arith;
}

-- the fork, table 2, comes after its parent, table 1
abbrev stored : List (ℕ × TableMetaInfo ℕ ℕ)
stored = (1, root_info) ∷ (2, leaf_info) ∷ []

abbrev entries : List (Bytes × Bytes)
entries = (1 ∷ [], []) ∷ (2 ∷ [], 0 ∷ []) ∷ []

register_all-decides_example :
    (ParentsFirst [] stored
      × ((s' : Registered Infos ℕ ℕ) × (register_all opening 2 entries empty ≡ finished s')
          × IsRegistered opening stored empty s'))
    ⊎ ((ParentsFirst [] stored → ⊥) × (register_all opening 2 entries empty ≡ panicked))
unfolding lookup insert
register_all-decides_example =
    register_all-decides opening 2 0 entries stored empty (refl, refl, (refl, refl, tt))
      (refl, (λ e. ground arith), (refl, (λ e. ground arith), tt)) no_tables (omega arith)

-- numbers as one byte, options after a mark, and bytes after their length
abbrev take_number : Bytes → Option (ℕ × Bytes)
take_number [] = none
take_number (n ∷ rest) = some (n, rest)

abbrev take_option : Bytes → Option (Option ℕ × Bytes)
take_option [] = none
take_option (zero ∷ rest) = some (none, rest)
take_option (suc m ∷ []) = none
take_option (suc m ∷ n ∷ rest) = some (some n, rest)

abbrev put_option : Option ℕ → Bytes
put_option none = 0 ∷ []
put_option (some n) = 1 ∷ n ∷ []

take_option-put :
    (o : Option ℕ) (rest : Bytes) → take_option (put_option o ++ rest) ≡ some (o, rest)
take_option-put none rest = refl
take_option-put (some n) rest = refl

abbrev take_front : ℕ → Bytes → Option (Bytes × Bytes)
take_front zero b = some ([], b)
take_front (suc n) [] = none
take_front (suc n) (x ∷ b) =
    let r = take_front n b in elim r [ none ↦ none | some (p, rest) ↦ some (x ∷ p, rest) ]

take_front-append : (b rest : Bytes) → take_front (length b) (b ++ rest) ≡ some (b, rest)
take_front-append [] rest = refl
take_front-append (x ∷ b) rest = ground (arith, take_front-append b rest)

abbrev take_bin : Bytes → Option (Bytes × Bytes)
take_bin [] = none
take_bin (n ∷ rest) = take_front n rest

abbrev number : {Valid : ℕ → Type 0} → Wire Valid
number = record { put = λ n. n ∷ []; take = take_number; take-put = λ n rest v. refl }

abbrev option : {Valid : Option ℕ → Type 0} → Wire Valid
option = record {
  put = put_option;
  take = take_option;
  take-put = λ o rest v. take_option-put o rest;
}

bon : Bon ℕ ℕ
bon = record {
  bin = record {
    put = λ b. length b ∷ b;
    take = take_bin;
    take-put = λ b rest v. take_front-append b rest;
  };
  atom = number;
  parent = option;
  enum = number;
  index = option;
  count = number;
}

decode_info-encode_info_example :
    decode_info bon (encode_info bon leaf_info ++ (9 ∷ [])) ≡ some (leaf_info, 9 ∷ [])
decode_info-encode_info_example =
    decode_info-encode_info bon leaf_info (9 ∷ []) (omega arith) (omega arith)

-- The first file has no key left, the second has two records to each key, the third one to each.
abbrev counted : List (Stats ℕ)
counted =
    record { path = 1; log_len = 4; key_len = 0 }
    ∷ record { path = 2; log_len = 6; key_len = 3 }
    ∷ record { path = 3; log_len = 5; key_len = 5 }
    ∷ []

abbrev loaded : AsyncLogFileStore MemFile ℕ
loaded = record {
  removed = [];
  map = (1 ∷ [], 7 ∷ []) ∷ [];
  log_file = ([], []);
  tmp_map = [];
  writable_path = some 4;
  is_statistics = true;
  is_init = false;
  statistics = counted;
}

abbrev collecting : Collecting MemFile ℕ
collecting = record {
  collect_logs = λ removed collected f. (true, f);
  read_again = λ f. some ((2, record { method = plain_append; key = 1 ∷ []; value = 8 ∷ [] }) ∷ []);
}

collect_store-keeps_example :
    let (r, s') = collect_store collecting loaded in
    (s'.map ≡ loaded.map)
    × (s'.is_init ≡ false)
    × (r ≡ (
        if (collecting.collect_logs
          (paths_of has_no_key (chosen counted))
          (paths_of (λ st. not (has_no_key st)) (chosen counted))
          loaded.log_file).0
        then ok tt
        else err io_error))
collect_store-keeps_example = collect_store-keeps collecting loaded refl
