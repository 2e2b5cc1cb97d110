-- ===== src/Receive/Duplicate/Examples.antt =====
-- The duplicate cache of Module/rtmp_data.c at concrete frames.
use rt.Prelude.{◌≡◌, refl, true, ◌&&◌, [], ◌∷◌, ◌==◌, arith}
use rt.Prelude.Lists.{mem_eq}
use rt.Receive.Duplicate.{TupleCache, Header, search_tuple_cache, update_tuple_cache}
use rt.Receive.Duplicate.Last.{cache, IsCache, update-search}

abbrev first : TupleCache
first = record { valid = true; mac_address = (1 ∷ 1 ∷ 1 ∷ 1 ∷ 1 ∷ 1 ∷ []); sequence = 7; frag = 0 }

abbrev second : TupleCache
second = record { valid = true; mac_address = (2 ∷ 2 ∷ 2 ∷ 2 ∷ 2 ∷ 2 ∷ []); sequence = 9; frag = 1 }

-- A third sender, and again the second.
abbrev third : Header
third = record { addr2 = (3 ∷ 3 ∷ 3 ∷ 3 ∷ 3 ∷ 3 ∷ []); sequence = 4; frag = 0 }

abbrev again : Header
again = record { addr2 = (2 ∷ 2 ∷ 2 ∷ 2 ∷ 2 ∷ 2 ∷ []); sequence = 9; frag = 1 }

full-IsCache : IsCache (cache first second 1)
full-IsCache = record {
  filled = λ h. refl;
  apart = λ h. unfold mem_eq in refl;
  index = omega arith;
}

update-search_example :
    search_tuple_cache (update_tuple_cache third (cache first second 1)) third
    ≡ (◌==◌ 4 4 && ◌==◌ 0 0)
update-search_example =
    update-search first second 1 third full-IsCache (omega arith) third (unfold mem_eq in refl)
