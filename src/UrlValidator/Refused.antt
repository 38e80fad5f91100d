-- ===== src/UrlValidator/Refused.antt =====
-- The addresses that are refused.
use oxiterm.Common.{ℕ, ◌<◌, ◌^◌, ◌≡◌, ◌&&◌, leb, arith}
use oxiterm.UrlValidator.{is_link_local_ipv6}

-- The mask keeps the segments of fe80::/10.
pub link_local-range :
    (segment : ℕ)
    → segment < 2 ^ 16
    → is_link_local_ipv6 segment ≡ (leb 0xfe80 segment && leb segment 0xfebf)
link_local-range segment h = ground arith
