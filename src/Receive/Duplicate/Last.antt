-- ===== src/Receive/Duplicate/Last.antt =====
-- Which frames the cache of Module/rtmp_data.c takes for duplicates.
use rt.Prelude.{ℕ, zero, suc, ◌≤◌, ◌<◌, ◌≡◌, refl, true, false, ◌&&◌, List, [], ◌∷◌, ◌==◌, arith}
use rt.Prelude.Lists.{length, memcpy, mem_eq, mem_eq-memcpy, mem_eq_sym}
use rt.Receive.Duplicate.{
  TupleCache, Header, Cache, tuple_at, search_from, search_tuple_cache, put_tuple, renew_tuple,
  replace_tuple, update_from, update_tuple_cache, eth_alen,
}

-- The cache of two entries.
abbrev pub cache : TupleCache → TupleCache → ℕ → Cache
cache a b i = record { tuples = a ∷ b ∷ []; last_update_index = i }

-- Filled from the first on, no two entries for one sender, and an index of one of them.
pub record IsCache (c : Cache) : Type 0 where
  pub filled : (tuple_at c 1).valid ≡ true → (tuple_at c 0).valid ≡ true
  pub apart :
      (tuple_at c 1).valid ≡ true
      → mem_eq (tuple_at c 0).mac_address (tuple_at c 1).mac_address eth_alen ≡ false
  pub index : c.last_update_index < 2

-- A header with a whole address.
abbrev pub IsHeader : Header → Type 0
IsHeader h = 6 ≤ length h.addr2

-- Equal addresses compare alike.
mem_eq-swap : (a b x : List ℕ) (n : ℕ) → mem_eq a b n ≡ true → mem_eq a x n ≡ mem_eq b x n
unfolding mem_eq
mem_eq-swap a b x zero e = refl
mem_eq-swap a b x (suc n) e = ground (arith, mem_eq-swap a b x n)

module _ (a b : TupleCache) (i : ℕ) (h : Header) (v : IsCache (cache a b i)) (w : IsHeader h) where
  -- After RTMPUpdateTupleCache on a well-formed cache, whichever entry it wrote, a frame of the same
  -- sender is a duplicate for RTMPSearchTupleCache exactly when its sequence and fragment numbers
  -- are those of the frame just noted.
  pub update-search :
      (h' : Header)
      → mem_eq h.addr2 h'.addr2 eth_alen ≡ true
      → search_tuple_cache (update_tuple_cache h (cache a b i)) h'
        ≡ (h.sequence == h'.sequence && h.frag == h'.frag)
  unfolding search_tuple_cache search_from update_tuple_cache update_from put_tuple renew_tuple
      replace_tuple
  update-search h' e = ground (
    arith,
    v,
    mem_eq-memcpy 6 6 a.mac_address h.addr2 h'.addr2,
    mem_eq-memcpy 6 6 b.mac_address h.addr2 h'.addr2,
    mem_eq-swap h.addr2 h'.addr2 a.mac_address 6 e,
    mem_eq-swap h.addr2 h'.addr2 b.mac_address 6 e,
    mem_eq_sym h.addr2 a.mac_address 6,
    mem_eq_sym h.addr2 b.mac_address 6,
    mem_eq_sym h'.addr2 a.mac_address 6,
    mem_eq_sym h'.addr2 b.mac_address 6,
    mem_eq-swap a.mac_address h.addr2 b.mac_address 6,
  )

  -- A frame of another sender is taken for a duplicate after RTMPUpdateTupleCache only if it was
  -- taken for one before.
  update-search_other :
      (h' : Header)
      → mem_eq h.addr2 h'.addr2 eth_alen ≡ false
      → search_tuple_cache (update_tuple_cache h (cache a b i)) h' ≡ true
      → search_tuple_cache (cache a b i) h' ≡ true
  unfolding search_tuple_cache search_from update_tuple_cache update_from put_tuple renew_tuple
      replace_tuple
  update-search_other h' e d = ground (
    arith,
    v,
    mem_eq-memcpy 6 6 a.mac_address h.addr2 h'.addr2,
    mem_eq-memcpy 6 6 b.mac_address h.addr2 h'.addr2,
    mem_eq-swap a.mac_address h.addr2 h'.addr2 6,
    mem_eq-swap b.mac_address h.addr2 h'.addr2 6,
  )

  -- RTMPUpdateTupleCache keeps the cache well formed: filled from the first entry on, one entry for
  -- a sender, and the index within the two entries.
  pub update-IsCache : IsCache (update_tuple_cache h (cache a b i))
  unfolding update_tuple_cache update_from put_tuple renew_tuple replace_tuple
  update-IsCache = record {
    filled = ground (arith, v);
    apart = ground (
      arith,
      v,
      mem_eq-memcpy 6 6 a.mac_address h.addr2 b.mac_address,
      mem_eq-memcpy 6 6 b.mac_address h.addr2 a.mac_address,
      mem_eq_sym h.addr2 b.mac_address 6,
      mem_eq_sym h.addr2 a.mac_address 6,
      mem_eq_sym (memcpy b.mac_address h.addr2 6) a.mac_address 6,
    );
    index = ground (arith, v);
  }
