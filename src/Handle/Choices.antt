-- ===== src/Handle/Choices.antt =====
-- pcap.c: the names of the link-layer types and of the time stamp types, on Linux.
use Prim.Native.String.{String}
use gap16g_libpcap.Base.{ℕ, List, [], ◌∷◌}

-- `struct dlt_choice` and `struct tstamp_type_choice`.
pub record Choice : Type 0 where
  pub name : String
  pub description : String
  pub value : ℕ

abbrev choice : String → String → ℕ → Choice
choice name description value = record { name = name; description = description; value = value }

abbrev pub dlt_choices : List Choice
dlt_choices =
    choice "DLT_NULL" "BSD loopback" 0
    ∷ choice "DLT_EN10MB" "Ethernet" 1
    ∷ choice "DLT_IEEE802" "Token ring" 6
    ∷ choice "DLT_ARCNET" "BSD ARCNET" 7
    ∷ choice "DLT_SLIP" "SLIP" 8
    ∷ choice "DLT_PPP" "PPP" 9
    ∷ choice "DLT_FDDI" "FDDI" 10
    ∷ choice "DLT_ATM_RFC1483" "RFC 1483 LLC-encapsulated ATM" 11
    ∷ choice "DLT_RAW" "Raw IP" 12
    ∷ choice "DLT_SLIP_BSDOS" "BSD/OS SLIP" 15
    ∷ choice "DLT_PPP_BSDOS" "BSD/OS PPP" 16
    ∷ choice "DLT_ATM_CLIP" "Linux Classical IP-over-ATM" 19
    ∷ choice "DLT_PPP_SERIAL" "PPP over serial" 50
    ∷ choice "DLT_PPP_ETHER" "PPPoE" 51
    ∷ choice "DLT_SYMANTEC_FIREWALL" "Symantec Firewall" 99
    ∷ choice "DLT_C_HDLC" "Cisco HDLC" 104
    ∷ choice "DLT_IEEE802_11" "802.11" 105
    ∷ choice "DLT_FRELAY" "Frame Relay" 107
    ∷ choice "DLT_LOOP" "OpenBSD loopback" 108
    ∷ choice "DLT_ENC" "OpenBSD encapsulated IP" 109
    ∷ choice "DLT_LINUX_SLL" "Linux cooked" 113
    ∷ choice "DLT_LTALK" "Localtalk" 114
    ∷ choice "DLT_PFLOG" "OpenBSD pflog file" 117
    ∷ choice "DLT_PFSYNC" "Packet filter state syncing" 246
    ∷ choice "DLT_PRISM_HEADER" "802.11 plus Prism header" 119
    ∷ choice "DLT_IP_OVER_FC" "RFC 2625 IP-over-Fibre Channel" 122
    ∷ choice "DLT_SUNATM" "Sun raw ATM" 123
    ∷ choice "DLT_IEEE802_11_RADIO" "802.11 plus radiotap header" 127
    ∷ choice "DLT_ARCNET_LINUX" "Linux ARCNET" 129
    ∷ choice "DLT_JUNIPER_MLPPP" "Juniper Multi-Link PPP" 130
    ∷ choice "DLT_JUNIPER_MLFR" "Juniper Multi-Link Frame Relay" 131
    ∷ choice "DLT_JUNIPER_ES" "Juniper Encryption Services PIC" 132
    ∷ choice "DLT_JUNIPER_GGSN" "Juniper GGSN PIC" 133
    ∷ choice "DLT_JUNIPER_MFR" "Juniper FRF.16 Frame Relay" 134
    ∷ choice "DLT_JUNIPER_ATM2" "Juniper ATM2 PIC" 135
    ∷ choice "DLT_JUNIPER_SERVICES" "Juniper Advanced Services PIC" 136
    ∷ choice "DLT_JUNIPER_ATM1" "Juniper ATM1 PIC" 137
    ∷ choice "DLT_APPLE_IP_OVER_IEEE1394" "Apple IP-over-IEEE 1394" 138
    ∷ choice "DLT_MTP2_WITH_PHDR" "SS7 MTP2 with Pseudo-header" 139
    ∷ choice "DLT_MTP2" "SS7 MTP2" 140
    ∷ choice "DLT_MTP3" "SS7 MTP3" 141
    ∷ choice "DLT_SCCP" "SS7 SCCP" 142
    ∷ choice "DLT_DOCSIS" "DOCSIS" 143
    ∷ choice "DLT_LINUX_IRDA" "Linux IrDA" 144
    ∷ choice "DLT_IEEE802_11_RADIO_AVS" "802.11 plus AVS radio information header" 163
    ∷ choice "DLT_JUNIPER_MONITOR" "Juniper Passive Monitor PIC" 164
    ∷ choice "DLT_BACNET_MS_TP" "BACnet MS/TP" 165
    ∷ choice "DLT_PPP_PPPD" "PPP for pppd, with direction flag" 166
    ∷ choice "DLT_JUNIPER_PPPOE" "Juniper PPPoE" 167
    ∷ choice "DLT_JUNIPER_PPPOE_ATM" "Juniper PPPoE/ATM" 168
    ∷ choice "DLT_GPRS_LLC" "GPRS LLC" 169
    ∷ choice "DLT_GPF_T" "GPF-T" 170
    ∷ choice "DLT_GPF_F" "GPF-F" 171
    ∷ choice "DLT_JUNIPER_PIC_PEER" "Juniper PIC Peer" 174
    ∷ choice "DLT_ERF_ETH" "Ethernet with Endace ERF header" 175
    ∷ choice "DLT_ERF_POS" "Packet-over-SONET with Endace ERF header" 176
    ∷ choice "DLT_LINUX_LAPD" "Linux vISDN LAPD" 177
    ∷ choice "DLT_JUNIPER_ETHER" "Juniper Ethernet" 178
    ∷ choice "DLT_JUNIPER_PPP" "Juniper PPP" 179
    ∷ choice "DLT_JUNIPER_FRELAY" "Juniper Frame Relay" 180
    ∷ choice "DLT_JUNIPER_CHDLC" "Juniper C-HDLC" 181
    ∷ choice "DLT_MFR" "FRF.16 Frame Relay" 182
    ∷ choice "DLT_JUNIPER_VP" "Juniper Voice PIC" 183
    ∷ choice "DLT_A429" "Arinc 429" 184
    ∷ choice "DLT_A653_ICM" "Arinc 653 Interpartition Communication" 185
    ∷ choice "DLT_USB" "USB" 186
    ∷ choice "DLT_BLUETOOTH_HCI_H4" "Bluetooth HCI UART transport layer" 187
    ∷ choice "DLT_IEEE802_16_MAC_CPS" "IEEE 802.16 MAC Common Part Sublayer" 188
    ∷ choice "DLT_USB_LINUX" "USB with Linux header" 189
    ∷ choice "DLT_CAN20B" "Controller Area Network (CAN) v. 2.0B" 190
    ∷ choice "DLT_IEEE802_15_4_LINUX" "IEEE 802.15.4 with Linux padding" 191
    ∷ choice "DLT_PPI" "Per-Packet Information" 192
    ∷ choice "DLT_IEEE802_16_MAC_CPS_RADIO"
        "IEEE 802.16 MAC Common Part Sublayer plus radiotap header" 193
    ∷ choice "DLT_JUNIPER_ISM" "Juniper Integrated Service Module" 194
    ∷ choice "DLT_IEEE802_15_4" "IEEE 802.15.4 with FCS" 195
    ∷ choice "DLT_SITA" "SITA pseudo-header" 196
    ∷ choice "DLT_ERF" "Endace ERF header" 197
    ∷ choice "DLT_RAIF1" "Ethernet with u10 Networks pseudo-header" 198
    ∷ choice "DLT_IPMB" "IPMB" 199
    ∷ choice "DLT_JUNIPER_ST" "Juniper Secure Tunnel" 200
    ∷ choice "DLT_BLUETOOTH_HCI_H4_WITH_PHDR"
        "Bluetooth HCI UART transport layer plus pseudo-header" 201
    ∷ choice "DLT_AX25_KISS" "AX.25 with KISS header" 202
    ∷ choice "DLT_IEEE802_15_4_NONASK_PHY" "IEEE 802.15.4 with non-ASK PHY data" 215
    ∷ choice "DLT_MPLS" "MPLS with label as link-layer header" 219
    ∷ choice "DLT_USB_LINUX_MMAPPED" "USB with padded Linux header" 220
    ∷ choice "DLT_DECT" "DECT" 221
    ∷ choice "DLT_AOS" "AOS Space Data Link protocol" 222
    ∷ choice "DLT_WIHART" "Wireless HART" 223
    ∷ choice "DLT_FC_2" "Fibre Channel FC-2" 224
    ∷ choice "DLT_FC_2_WITH_FRAME_DELIMS" "Fibre Channel FC-2 with frame delimiters" 225
    ∷ choice "DLT_IPNET" "Solaris ipnet" 226
    ∷ choice "DLT_CAN_SOCKETCAN" "CAN-bus with SocketCAN headers" 227
    ∷ choice "DLT_IPV4" "Raw IPv4" 228
    ∷ choice "DLT_IPV6" "Raw IPv6" 229
    ∷ choice "DLT_IEEE802_15_4_NOFCS" "IEEE 802.15.4 without FCS" 230
    ∷ choice "DLT_JUNIPER_VS" "Juniper Virtual Server" 232
    ∷ choice "DLT_JUNIPER_SRX_E2E" "Juniper SRX E2E" 233
    ∷ choice "DLT_JUNIPER_FIBRECHANNEL" "Juniper Fibre Channel" 234
    ∷ choice "DLT_DVB_CI" "DVB-CI" 235
    ∷ choice "DLT_JUNIPER_ATM_CEMIC" "Juniper ATM CEMIC" 238
    ∷ choice "DLT_NFLOG" "Linux netfilter log messages" 239
    ∷ choice "DLT_NETANALYZER" "Ethernet with Hilscher netANALYZER pseudo-header" 240
    ∷ choice "DLT_NETANALYZER_TRANSPARENT"
        "Ethernet with Hilscher netANALYZER pseudo-header and with preamble and SFD" 241
    ∷ choice "DLT_IPOIB" "RFC 4391 IP-over-Infiniband" 242
    ∷ choice "DLT_DBUS" "D-Bus" 231
    ∷ []

abbrev pub tstamp_type_choices : List Choice
tstamp_type_choices =
    choice "host" "Host" 0
    ∷ choice "host_lowprec" "Host, low precision" 1
    ∷ choice "host_hiprec" "Host, high precision" 2
    ∷ choice "adapter" "Adapter" 3
    ∷ choice "adapter_unsynced" "Adapter, not synced with system time" 4
    ∷ []
