-- ===== src/Fork/Codec.antt =====
-- How an entry of `tabs_meta` is written and read: `Encode` and `Decode` of `TableMetaInfo` in
-- src/fork.rs and of `TabMeta` in src/db.rs.
--
-- The crate `bon` writes and reads the fields: a buffer is its bytes, what is written goes to its
-- end, and what is read is taken from its front.
use pi_db.Base.{nat_eq, list_eq, pair_eq, ℕ, ◌<◌, ◌≡◌, Option, none, some, ◌++◌}
use pi_db.Data.{Bytes, TabMeta}
use pi_db.Fork.{TableMetaInfo, usize_mod}

-- One type of `bon`, with the values that it can hold.
pub record Wire {A : Type 0} (Valid : A → Type 0) : Type 0 where
  pub put : A → Bytes
  pub take : Bytes → Option (A × Bytes)
  pub take-put : (a : A) (rest : Bytes) → Valid a → take (put a ++ rest) ≡ some (a, rest)

abbrev pub Always : {A : Type 0} → A → Type 0
Always a = Unit

abbrev pub FitsUsize : ℕ → Type 0
FitsUsize n = n < usize_mod

abbrev pub FitsIndex : Option ℕ → Type 0
FitsIndex none = Unit
FitsIndex (some n) = n < usize_mod

-- `write_bin` and `read_bin`, and `Encode` and `Decode` of the types of the fields
pub record Bon (Atom EnumType : Type 0) : Type 0 where
  pub bin : Wire {A = Bytes} Always
  pub atom : Wire {A = Atom} Always
  pub parent : Wire {A = Option Atom} Always
  pub enum : Wire {A = EnumType} Always
  pub index : Wire FitsIndex
  pub count : Wire FitsUsize

-- `?` on what a reader returns
infixl 5 ◌>>=◌
abbrev pub ◌>>=◌ : {A B : Type 0} → Option A → (A → Option B) → Option B
none >>= f = none
some a >>= f = f a

module _ {Atom EnumType : Type 0} (bon : Bon Atom EnumType) where
  unfoldable pub encode_meta : TabMeta EnumType → Bytes
  encode_meta m = bon.enum.put m.k ++ bon.enum.put m.v

  unfoldable pub decode_meta : Bytes → Option (TabMeta EnumType × Bytes)
  decode_meta b = elim (bon.enum.take b) [
    | none ↦ none
    | some (k, b1) ↦ elim (bon.enum.take b1) [
      | none ↦ none
      | some (v, b2) ↦ some (record { k = k; v = v }, b2)
    ]
  ]

  -- each field is written to a buffer of its own, whose bytes are then written
  unfoldable pub encode_info : TableMetaInfo Atom EnumType → Bytes
  unfolding encode_meta
  encode_info t =
      bon.bin.put (bon.atom.put t.tab_name)
      ++ (bon.bin.put (encode_meta t.meta_info)
          ++ (bon.bin.put (bon.parent.put t.parent)
              ++ (bon.bin.put (bon.index.put t.parent_log_id)
                  ++ bon.bin.put (bon.count.put t.ref_count))))

  -- `read_bin`, and the field that is decoded from the front of its bytes
  abbrev pub read_field : {A : Type 0} → (Bytes → Option (A × Bytes)) → Bytes → Option (A × Bytes)
  read_field take b = elim (bon.bin.take b) [
    | none ↦ none
    | some (field, rest) ↦ elim (take field) [ none ↦ none | some (a, _) ↦ some (a, rest) ]
  ]

  unfoldable pub decode_info : Bytes → Option (TableMetaInfo Atom EnumType × Bytes)
  unfolding decode_meta
  decode_info b = do
    (tab_name, b1) ← read_field bon.atom.take b
    (m, b2) ← read_field decode_meta b1
    (parent, b3) ← read_field bon.parent.take b2
    (parent_log_id, b4) ← read_field bon.index.take b3
    (ref_count, b5) ← read_field bon.count.take b4
    some (
      record {
        tab_name = tab_name;
        meta_info = m;
        parent = parent;
        parent_log_id = parent_log_id;
        ref_count = ref_count;
      },
      b5,
    )
