-- ===== src/PluginApi/Runtime/Entries.antt =====
-- packages/plugin-api/src/runtime/index.ts: the entries of the runner during the loop of `boot`.
use appspine_packages.Base.{
  ◌≡◌, refl, ◌∙◌, sym, ap, true, false, some, List, [], ◌∷◌, ◌++◌, map, arith, Text, includes,
  includes-append, same_refl, same→eq, Dict, keys, get, put, Distinct,
}
use mathlib.Core.List.{append_assoc, append-nil, map-append}
use appspine_packages.PluginApi.Runtime.{
  RuntimeInstance, CatalogEntry, update, initial_entry, new_runner, entries_from,
}

-- The entries of the instances that are still to come.
abbrev pub fresh : List RuntimeInstance → Dict CatalogEntry
fresh instances = map (λ i. (i.key, initial_entry i)) instances

abbrev pub runtime_keys : List RuntimeInstance → List Text
runtime_keys instances = map (λ i. i.key) instances

pub get-middle :
    (pre post : Dict CatalogEntry) (k : Text) (e : CatalogEntry)
    → includes (keys pre) k ≡ false
    → get k (pre ++ (k, e) ∷ post) ≡ some e
unfolding get includes
get-middle [] post k e h = rw (same_refl k) refl
get-middle ((j, w) ∷ pre) post k e h = ground (arith, get-middle pre post k e)

pub update-middle :
    (f : CatalogEntry → CatalogEntry) (pre post : Dict CatalogEntry) (k : Text) (e : CatalogEntry)
    → includes (keys pre) k ≡ false
    → update f k (pre ++ (k, e) ∷ post) ≡ pre ++ (k, f e) ∷ post
unfolding update includes
update-middle f [] post k e h = rw (same_refl k) refl
update-middle f ((j, w) ∷ pre) post k e h = ground (arith, update-middle f pre post k e)

put-new :
    (k : Text) (e : CatalogEntry) (m : Dict CatalogEntry)
    → includes (keys m) k ≡ false
    → put k e m ≡ m ++ (k, e) ∷ []
unfolding put includes
put-new k e [] h = refl
put-new k e ((j, w) ∷ m) h = ground (arith, put-new k e m)

abbrev pub IsApart : List Text → List Text → Type 0
IsApart xs ys = (k : Text) → includes ys k ≡ true → includes xs k ≡ false

pub IsApart-head :
    (xs : List Text) (y : Text) (ys : List Text) → IsApart xs (y ∷ ys) → includes xs y ≡ false
unfolding includes
IsApart-head xs y ys h = h y (ground (arith, same_refl y))

pub IsApart-tail :
    (xs : List Text) (y : Text) (ys : List Text)
    → includes ys y ≡ false
    → IsApart xs (y ∷ ys)
    → IsApart (xs ++ y ∷ []) ys
unfolding includes
IsApart-tail xs y ys new h k m = ground (arith, h k, includes-append xs (y ∷ []) k, same→eq y k)

entries_from-append :
    (m : Dict CatalogEntry) (instances : List RuntimeInstance)
    → Distinct (runtime_keys instances)
    → IsApart (keys m) (runtime_keys instances)
    → entries_from m instances ≡ m ++ fresh instances
unfolding entries_from
entries_from-append m [] d apart = sym (append-nil m)
entries_from-append m (i ∷ rest) (new, d) apart =
    ap (λ n. entries_from n rest)
      (put-new i.key (initial_entry i) m (IsApart-head (keys m) i.key _ apart))
    ∙ entries_from-append (m ++ (i.key, initial_entry i) ∷ []) rest d (
        rw (map-append (λ e. e.0) m ((i.key, initial_entry i) ∷ []))
          (IsApart-tail (keys m) i.key (runtime_keys rest) new apart))
    ∙ append_assoc m ((i.key, initial_entry i) ∷ []) (fresh rest)

-- The constructor makes a pending entry for each instance, in order.
pub new_runner-entries :
    (instances : List RuntimeInstance)
    → Distinct (runtime_keys instances)
    → (new_runner instances).entries ≡ fresh instances
unfolding new_runner includes
new_runner-entries instances d = entries_from-append [] instances d (λ k h. refl)
