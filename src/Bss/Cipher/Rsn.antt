-- ===== src/Bss/Cipher/Rsn.antt =====
-- An RSN element as an access point writes it (IEEE 802.11i), and what BssCipherParse of
-- Module/mlme.c makes of it.
use rt.Prelude.{ℕ, ◌<◌, Bool, List, ◌∷◌, ◌++◌}
use rt.Prelude.Lists.{length}
use rt.Bss.Cipher.{Security}
use rt.Bss.Cipher.Meaning.{suite_number, highest, second, has, last_mode, flags, rsn_security}
use rt.Bss.Cipher.Suites.{suites, le16}

-- The element: version 1, the group suite, the pairwise suites, the key management suites, and the
-- capability.
abbrev pub rsn_body : ℕ → List ℕ → List ℕ → ℕ → List ℕ
rsn_body group pairs akms cap =
    1
    ∷ 0
    ∷ 0
    ∷ 15
    ∷ 172
    ∷ group
    ∷ (le16 (length pairs) ++ (suites pairs ++ (le16 (length akms) ++ (suites akms ++ le16 cap))))

abbrev pub rsn_element : ℕ → List ℕ → List ℕ → ℕ → List ℕ
rsn_element group pairs akms cap =
    48 ∷ length (rsn_body group pairs akms cap) ∷ rsn_body group pairs akms cap

-- What the element says, on its own: the numbers of its suites, the highest of them and the second,
-- the flags of those that occur, and its capability.
unfoldable pub rsn_meaning : Bool → ℕ → List ℕ → List ℕ → ℕ → Security
unfolding rsn_security
rsn_meaning adhoc group pairs akms cap =
    rsn_security adhoc cap (suite_number group) (highest pairs 1) (second pairs 1 1)
      (flags 1 2 (has 2 pairs) (has 4 pairs)) (last_mode akms 0)
      (flags 2 8 (has 1 akms) (has 2 akms))

module _ (privacy adhoc : Bool) (group : ℕ) (pairs akms : List ℕ) (cap : ℕ)
    (few : length pairs < 32) (some_akm : 0 < length akms) (few_akms : length akms < 32)
    (small : cap < 65536) where
  abbrev ies : List ℕ
  ies = rsn_element group pairs akms cap
