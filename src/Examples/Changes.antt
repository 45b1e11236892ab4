-- ===== src/Examples/Changes.antt =====
-- The theorems on changes of tables, at concrete tables and changes.
use pi_db.Base.{
  nat_eqb, Eq, nat_eqb_iff, nat_eq, list_eq, pair_eqb_iff, pair_eq, ℕ, ◌≡◌, refl, ◌≢◌, ◌↔◌, Bool,
  true, ◌&&◌, none, some, [], ◌∷◌, arith,
}
use pi_db.Data.{TabMeta}
use pi_db.HashMap.{HashMap, lookup}
use pi_db.OrdMap.{OrdMap}
use pi_db.OrdMap.Versioned.{versioned}
use pi_db.Tabs.{TabInfo, TabLog, Tabs, Cells, tab_meta, alter}
use pi_db.Tabs.Phases.{tabs_prepare, tabs_commit}
use pi_db.Tabs.Altered.{IsAltered, changed, tabs_commit-changed, alter-loses_second}
use pi_db.Tabs.Prepared.{tabs_prepare-ok}

abbrev pub info_eqb : TabInfo ℕ → TabInfo ℕ → Bool
info_eqb a b =
    nat_eqb a.meta_info.k b.meta_info.k
    && nat_eqb a.meta_info.v b.meta_info.v
    && nat_eqb a.init b.init

pub info_eqb_iff : (a b : TabInfo ℕ) → (info_eqb a b ≡ true) ↔ (a ≡ b)
info_eqb_iff a b = ground (
  arith,
  nat_eqb_iff a.meta_info.k b.meta_info.k,
  nat_eqb_iff a.meta_info.v b.meta_info.v,
  nat_eqb_iff a.init b.init,
)

instance abbrev pub info_eq : Eq (TabInfo ℕ)
info_eq = record { beq = info_eqb; beq_iff = info_eqb_iff }

abbrev pub Infos : Type 0
Infos = HashMap ℕ (TabInfo ℕ)

abbrev pub infos : OrdMap nat_eq.beq (TabInfo ℕ) Infos
infos = versioned

abbrev pub types1 : TabMeta ℕ
types1 = record { k = 0; v = 1 }

abbrev pub types2 : TabMeta ℕ
types2 = record { k = 0; v = 2 }

abbrev pub before : Infos
before = (1, record { meta_info = types1; init = 0 }) ∷ []

-- another transaction has made a table since
abbrev present : Infos
present =
    (1, record { meta_info = types1; init = 0 }) ∷ (2, record { meta_info = types1; init = 1 }) ∷ []

abbrev nothing : Cells ℕ ℕ
nothing = []

-- the first table has been given other types
abbrev log1 : TabLog ℕ ℕ Infos
log1 = record {
  map = (1, record { meta_info = types2; init = 0 }) ∷ [];
  old_map = before;
  meta_names = (1, tt) ∷ [];
  alter_logs = ((1, 0), some types2) ∷ [];
  rename_logs = [];
}

log1-IsAltered : IsAltered infos log1
unfolding versioned lookup
log1-IsAltered = record {
  plain = refl;
  distinct = (refl, tt);
  first = λ k q. ground (arith, pair_eqb_iff (1, 0) k);
  seen = λ n. ground arith;
}

abbrev tabs1 : Tabs ℕ ℕ ℕ Infos
tabs1 = record { map = present; prepare = (7, log1) ∷ [] }

tabs_commit-changed_example :
    ((n : ℕ)
      → tab_meta infos (tabs_commit infos 7 tabs1 nothing).0.map n
        ≡ changed (lookup (n, 0) log1.alter_logs) (tab_meta infos present n))
    × (lookup 7 (tabs_commit infos 7 tabs1 nothing).0.prepare ≡ none)
unfolding lookup
tabs_commit-changed_example = tabs_commit-changed infos 7 tabs1 nothing log1 log1-IsAltered refl

abbrev log2 : TabLog ℕ ℕ Infos
log2 = (alter infos 1 none log1 nothing).0

alter-loses_second_example :
    (tab_meta infos log2.map 1 ≡ none)
    × (tab_meta infos
          (tabs_commit infos 7 (record tabs1 { prepare = (7, log2) ∷ [] }) nothing).0.map
          1
        ≡ some types2)
unfolding lookup versioned alter
alter-loses_second_example =
    alter-loses_second infos 7 1 (some types2) none log1 (record tabs1 { prepare = (7, log2) ∷ [] })
      nothing log1-IsAltered refl refl refl

tabs_prepare-ok_example :
    let (r, log', tabs') = tabs_prepare infos 7 log1 (record tabs1 { prepare = [] }) in
    ((n : ℕ) → lookup n log1.meta_names ≢ none → infos.get present n ≡ infos.get before n)
    × ((g : ℕ) (o : TabLog ℕ ℕ Infos) (n : ℕ)
        → lookup {V = TabLog ℕ ℕ Infos} g [] ≡ some o
        → lookup n o.meta_names ≢ none
        → lookup n log1.meta_names ≡ none)
    × (lookup 7 tabs'.prepare ≡ some log1)
    × (log'.alter_logs ≡ [])
    × (tabs'.map ≡ present)
unfolding lookup versioned tabs_prepare
tabs_prepare-ok_example = tabs_prepare-ok infos 7 log1 (record tabs1 { prepare = [] }) refl
