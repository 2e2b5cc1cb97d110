-- ===== src/Scan.antt =====
-- The channels of a scan (Module/sync.c, FirstChannel and NextChannel). The list of the country's
-- channels, `ChannelList` up to `ChannelListNum`, is a list of numbers.
pub mod Channels
mod Examples
use rt.Prelude.{ℕ, zero, suc, ◌+◌, ◌-◌, List, ◌==◌, if◌then◌else◌}
use rt.Prelude.Lists.{length, get_or}

-- FirstChannel.
unfoldable pub first_channel : List ℕ → ℕ
first_channel list = get_or list 0 0

-- The loop of NextChannel, with the rounds left.
unfoldable pub next_from : ℕ → ℕ → List ℕ → ℕ → ℕ
next_from zero i list channel = 0
next_from (suc left) i list channel =
    let rest = next_from left (i + 1) list channel in
    if channel == get_or list i 0 then get_or list (i + 1) 0 else rest

-- NextChannel.
unfoldable pub next_channel : List ℕ → ℕ → ℕ
unfolding next_from
next_channel list channel = next_from (length list - 1) 0 list channel
