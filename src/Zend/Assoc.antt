-- ===== src/Zend/Assoc.antt =====
-- A concrete hash table, a list of pairs, at which the theorems can be run.
use mediawiki_php_excimer.Prelude.{refl, List, [], ◌∷◌, ◌++◌}
use mediawiki_php_excimer.Zend.{Key, lookup, replace, HashApi}
use mediawiki_php_excimer.Zend.Sort.{sort, lookup-sort, items-sort_lem, sort-IsSorted}

instance abbrev pub assoc : HashApi
assoc = record {
  Table = λ V. List (Key × V);
  new = λ V. [];
  find = λ t k. lookup k t;
  add = λ t k v. t ++ (k, v) ∷ [];
  assign = λ t k v. replace k v t;
  items = λ t. t;
  sort = λ le t. sort le t;
  items-new = λ V. refl;
  find-items = λ t k. refl;
  items-add = λ t k v h. refl;
  items-assign = λ t k v. refl;
  find-sort = λ le t k. lookup-sort le t k;
  items-sort = λ le t. items-sort_lem le t;
  sort-IsSorted = λ le P t o ps. sort-IsSorted le P o t ps;
}
