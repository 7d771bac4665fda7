-- ===== src/Names/Tests.antt =====
-- nametoaddr.c: an Ethernet address, and an address of the Internet protocol.
use gap16g_libpcap.Base.{◌≡◌, refl, arith, true, false, List, [], ◌∷◌}
use gap16g_libpcap.Names.{
  written, written_behind, read_behind, xdtoi, ether_loop, pcap_ether_aton, pcap_atoin,
}
use gap16g_libpcap.Names.Ether.{bare, colon, dash, Item, text_of, pcap_ether_aton-text_of}
use gap16g_libpcap.Names.Inet.{dotted, pcap_atoin-dotted}

-- 02:a0-FF0009:7f
abbrev items : List Item
items =
    (bare, false, 2)
    ∷ (colon, false, 160)
    ∷ (dash, true, 255)
    ∷ (bare, false, 0)
    ∷ (bare, true, 9)
    ∷ (colon, false, 127)
    ∷ []

pcap_ether_aton-text_of_example :
    pcap_ether_aton (text_of items) ≡ written (2 ∷ 160 ∷ 255 ∷ 0 ∷ 9 ∷ 127 ∷ [])
pcap_ether_aton-text_of_example =
    pcap_ether_aton-text_of items (omega arith)
      (omega arith, (omega arith, (omega arith, (omega arith, (omega arith, (omega arith, tt))))))

-- Text that is not well formed: "1:" and seven bytes.
outside :
    (pcap_ether_aton (49 ∷ 58 ∷ []) ≡ read_behind)
    × (pcap_ether_aton (49 ∷ 58 ∷ 49 ∷ 58 ∷ 49 ∷ 58 ∷ 49 ∷ 58 ∷ 49 ∷ 58 ∷ 49 ∷ 58 ∷ 49 ∷ [])
        ≡ written_behind)
unfolding xdtoi ether_loop
outside = (refl, refl)

pcap_atoin-dotted_example : pcap_atoin (dotted 10 (0 ∷ 255 ∷ [])) ≡ (24, 655615)
pcap_atoin-dotted_example =
    pcap_atoin-dotted 10 (0 ∷ 255 ∷ []) (omega arith, (omega arith, (omega arith, tt)))
