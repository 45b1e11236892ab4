-- ===== src/Fork/Stored.antt =====
-- An entry of `tabs_meta` is read as it was written (src/fork.rs).
use pi_db.Base.{nat_eq, list_eq, pair_eq, ◌≡◌, refl, sym, ap, ◌∙◌, Option, some, [], ◌++◌, arith}
use pi_db.Data.{Bytes, TabMeta}
use mathlib.Core.List.{append_assoc, append-nil}
use pi_db.Fork.{TableMetaInfo}
use pi_db.Fork.Codec.{
  Bon, FitsIndex, FitsUsize, encode_meta, decode_meta, encode_info, decode_info, read_field,
}

module _ {Atom EnumType : Type 0} (bon : Bon Atom EnumType) where
  take_meta :
      (m : TabMeta EnumType) (rest : Bytes)
      → decode_meta bon (encode_meta bon m ++ rest) ≡ some (m, rest)
  unfolding decode_meta encode_meta
  take_meta m rest =
      rw
        (
          append_assoc (bon.enum.put m.k) (bon.enum.put m.v) rest,
          decode_meta,
          bon.enum.take-put m.k (bon.enum.put m.v ++ rest) tt,
          bon.enum.take-put m.v rest tt,
        )
        refl

  -- a field that has been written is read, and the rest is left
  read_field-put :
      {A : Type 0} (take : Bytes → Option (A × Bytes)) (field : Bytes) (a : A) (rest : Bytes)
      → ((more : Bytes) → take (field ++ more) ≡ some (a, more))
      → read_field bon take (bon.bin.put field ++ rest) ≡ some (a, rest)
  read_field-put take field a rest h =
      rw (read_field, bon.bin.take-put field rest tt)
        (ground (arith, ap take (sym (append-nil field)) ∙ h []))

  -- The bytes of an entry whose numbers fit `usize` are read back as that entry, and what follows
  -- them in the buffer is left.
  pub decode_info-encode_info :
      (t : TableMetaInfo Atom EnumType) (rest : Bytes)
      → FitsIndex t.parent_log_id
      → FitsUsize t.ref_count
      → decode_info bon (encode_info bon t ++ rest) ≡ some (t, rest)
  unfolding decode_info encode_info
  decode_info-encode_info t rest fits_index fits_count =
      let f1 = bon.atom.put t.tab_name in
      let f2 = encode_meta bon t.meta_info in
      let f3 = bon.parent.put t.parent in
      let f4 = bon.index.put t.parent_log_id in
      let f5 = bon.count.put t.ref_count in
      let put = bon.bin.put in
      let b4 = put f5 ++ rest in
      let b3 = put f4 ++ b4 in
      let b2 = put f3 ++ b3 in
      let b1 = put f2 ++ b2 in
      let nested : encode_info bon t ++ rest ≡ put f1 ++ b1 =
        append_assoc (put f1) (put f2 ++ (put f3 ++ (put f4 ++ put f5))) rest
        ∙ ap (λ b. put f1 ++ b)
            (append_assoc (put f2) (put f3 ++ (put f4 ++ put f5)) rest
              ∙ ap (λ b. put f2 ++ b)
                  (append_assoc (put f3) (put f4 ++ put f5) rest
                    ∙ ap (λ b. put f3 ++ b) (append_assoc (put f4) (put f5) rest))) in
      rw
        (
          nested,
          read_field-put bon.atom.take f1 t.tab_name b1
              (λ more. bon.atom.take-put t.tab_name more tt),
          read_field-put (decode_meta bon) f2 t.meta_info b2 (take_meta t.meta_info),
          read_field-put bon.parent.take f3 t.parent b3
              (λ more. bon.parent.take-put t.parent more tt),
          read_field-put bon.index.take f4 t.parent_log_id b4
              (λ more. bon.index.take-put t.parent_log_id more fits_index),
          read_field-put bon.count.take f5 t.ref_count rest
              (λ more. bon.count.take-put t.ref_count more fits_count),
        )
        refl
