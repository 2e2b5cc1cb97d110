-- ===== src/Receive/Duplicate.antt =====
-- The cache of the last unicast frames (Module/rtmp_data.c, RTMPSearchTupleCache and
-- RTMPUpdateTupleCache; the entry is TUPLE_CACHE of Module/rtmp.h).
pub mod Last
mod Examples
use rt.Prelude.{ℕ, zero, suc, ◌+◌, ◌%◌, Bool, true, false, ◌&&◌, List, [], leb, ◌==◌, if◌then◌else◌}
use rt.Prelude.Lists.{get_or, set, memcpy, mem_eq}

abbrev pub max_client : ℕ
max_client = 2

abbrev pub eth_alen : ℕ
eth_alen = 6

pub record TupleCache : Type 0 where
  pub valid : Bool
  pub mac_address : List ℕ
  pub sequence : ℕ
  pub frag : ℕ

-- The fields of a frame's header that the cache looks at.
pub record Header : Type 0 where
  pub addr2 : List ℕ
  pub sequence : ℕ
  pub frag : ℕ

-- `TupleCache` and `TupleCacheLastUpdateIndex` of the adapter.
pub record Cache : Type 0 where
  pub tuples : List TupleCache
  pub last_update_index : ℕ

abbrev pub no_tuple : TupleCache
no_tuple = record { valid = false; mac_address = []; sequence = 0; frag = 0 }

abbrev pub tuple_at : Cache → ℕ → TupleCache
tuple_at c i = get_or c.tuples i no_tuple

abbrev pub same_sender : TupleCache → Header → Bool
same_sender t h = mem_eq t.mac_address h.addr2 eth_alen

-- The loop of RTMPSearchTupleCache, with the rounds left.
unfoldable pub search_from : ℕ → ℕ → Cache → Header → Bool
search_from zero i c h = false
search_from (suc left) i c h =
    let rest = search_from left (i + 1) c h in
    let t = tuple_at c i in
    if t.valid && same_sender t h && t.sequence == h.sequence && t.frag == h.frag
    then true
    else rest

-- RTMPSearchTupleCache.
unfoldable pub search_tuple_cache : Cache → Header → Bool
unfolding search_from
search_tuple_cache c h = search_from max_client 0 c h

-- A whole entry written over the one at `i`.
unfoldable pub put_tuple : ℕ → Header → Cache → Cache
put_tuple i h c = record c {
  tuples = set c.tuples i (record {
    valid = true;
    mac_address = memcpy (tuple_at c i).mac_address h.addr2 eth_alen;
    sequence = h.sequence;
    frag = h.frag;
  });
}

-- The numbers alone.
unfoldable pub renew_tuple : ℕ → Header → Cache → Cache
renew_tuple i h c = record c {
  tuples = set c.tuples i (record (tuple_at c i) { sequence = h.sequence; frag = h.frag });
}

-- The end of RTMPUpdateTupleCache, on a full cache. The index is a `UCHAR`.
unfoldable pub replace_tuple : Header → Cache → Cache
unfolding put_tuple
replace_tuple h c =
    let next = (c.last_update_index + 1) % 256 in
    let i = if leb max_client next then 0 else next in
    put_tuple i h (record c { last_update_index = i })

-- The loop of RTMPUpdateTupleCache, with the rounds left.
unfoldable pub update_from : ℕ → ℕ → Header → Cache → Cache
unfolding put_tuple renew_tuple replace_tuple
update_from zero i h c = replace_tuple h c
update_from (suc left) i h c =
    let rest = update_from left (i + 1) h c in
    if (tuple_at c i).valid
    then (if same_sender (tuple_at c i) h then renew_tuple i h c else rest)
    else record (put_tuple i h c) { last_update_index = i }

-- RTMPUpdateTupleCache.
unfoldable pub update_tuple_cache : Header → Cache → Cache
unfolding update_from
update_tuple_cache h c = update_from max_client 0 h c
