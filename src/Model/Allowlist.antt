-- ===== src/Model/Allowlist.antt =====
-- `optimistic_allowlist` of driver/legion-laptop.c: the DMI matches of each supported model and its
-- configuration, in the order in which the first match is taken.
use sc_control.Base.{String, List, [], ◌∷◌, ◌++◌}
use sc_control.Model.Config.{ModelConfig}
use sc_control.Model.Configs.{
  model_4gcn, model_8jcn, model_9vcn, model_bhcn, model_bvcn, model_dmcn, model_e9cn, model_efcn,
  model_eucn, model_fccn, model_g8cn, model_h3cn, model_hacn, model_j1cn, model_j2cn, model_jncn,
  model_k1cn, model_k9cn, model_kfcn, model_khcn, model_kwcn, model_lpcn, model_lzcn, model_m0cn,
  model_m1cn, model_m2cn, model_m3cn, model_m3cn_8227, model_m6cn, model_n2cn, model_necn,
  model_nmcn, model_nrcn, model_nscn, model_nxcn, model_nzcn, model_q8cn, model_qncn, model_r3cn,
  model_r8cn, model_recn, model_rxcn, model_rzcn, model_s2cn, model_secn, model_t2cn, model_ufcn,
  model_v0, model_v2022,
}

pub data DmiField : Type 0 where
  bios_version product_name sys_vendor : DmiField

pub record DmiEntry : Type 0 where
  pub ident : String
  pub matches : List (DmiField × String)
  pub driver_data : ModelConfig

abbrev entry : String → List (DmiField × String) → ModelConfig → DmiEntry
entry ident matches model = record { ident = ident; matches = matches; driver_data = model }

abbrev allowlist_head : List DmiEntry
allowlist_head =
    entry "GKCN" ((sys_vendor, "LENOVO") ∷ (bios_version, "GKCN") ∷ []) model_v0
    ∷ entry "Legion R7000P APH8 (82Y9) - EC 0x8227"
        ((sys_vendor, "LENOVO") ∷ (product_name, "82Y9") ∷ (bios_version, "M3CN") ∷ [])
        model_m3cn_8227
    ∷ entry "EUCN" ((sys_vendor, "LENOVO") ∷ (bios_version, "EUCN") ∷ []) model_eucn
    ∷ entry "EFCN" ((sys_vendor, "LENOVO") ∷ (bios_version, "EFCN") ∷ []) model_efcn
    ∷ entry "FSCN" ((sys_vendor, "LENOVO") ∷ (bios_version, "FSCN") ∷ []) model_v0
    ∷ entry "HHCN" ((sys_vendor, "LENOVO") ∷ (bios_version, "HHCN") ∷ []) model_v0
    ∷ entry "H1CN" ((sys_vendor, "LENOVO") ∷ (bios_version, "H1CN") ∷ []) model_v0
    ∷ entry "J2CN" ((sys_vendor, "LENOVO") ∷ (bios_version, "J2CN") ∷ []) model_v0
    ∷ entry "JUCN" ((sys_vendor, "LENOVO") ∷ (bios_version, "JUCN") ∷ []) model_v0
    ∷ entry "KFCN" ((sys_vendor, "LENOVO") ∷ (bios_version, "KFCN") ∷ []) model_kfcn
    ∷ entry "HACN" ((sys_vendor, "LENOVO") ∷ (bios_version, "HACN") ∷ []) model_hacn
    ∷ entry "G9CN" ((sys_vendor, "LENOVO") ∷ (bios_version, "G9CN") ∷ []) model_v0
    ∷ entry "K9CN" ((sys_vendor, "LENOVO") ∷ (bios_version, "K9CN") ∷ []) model_k9cn
    ∷ entry "FCCN" ((sys_vendor, "LENOVO") ∷ (bios_version, "FCCN") ∷ []) model_fccn
    ∷ entry "H4CN" ((sys_vendor, "LENOVO") ∷ (bios_version, "H4CN") ∷ []) model_h3cn
    ∷ entry "H3CN" ((sys_vendor, "LENOVO") ∷ (bios_version, "H3CN") ∷ []) model_h3cn
    ∷ []

abbrev allowlist_second : List DmiEntry
allowlist_second =
    entry "JNCN" ((sys_vendor, "LENOVO") ∷ (bios_version, "JNCN") ∷ []) model_jncn
    ∷ entry "E9CN" ((sys_vendor, "LENOVO") ∷ (bios_version, "E9CN") ∷ []) model_e9cn
    ∷ entry "8JCN" ((sys_vendor, "LENOVO") ∷ (bios_version, "8JCN") ∷ []) model_8jcn
    ∷ entry "KWCN" ((sys_vendor, "LENOVO") ∷ (bios_version, "KWCN") ∷ []) model_kwcn
    ∷ entry "G8CN" ((sys_vendor, "LENOVO") ∷ (bios_version, "G8CN") ∷ []) model_g8cn
    ∷ entry "LPCN" ((sys_vendor, "LENOVO") ∷ (bios_version, "LPCN") ∷ []) model_lpcn
    ∷ entry "BHCN" ((sys_vendor, "LENOVO") ∷ (bios_version, "BHCN") ∷ []) model_bhcn
    ∷ entry "K1CN" ((sys_vendor, "LENOVO") ∷ (bios_version, "K1CN") ∷ []) model_k1cn
    ∷ entry "NSCN" ((sys_vendor, "LENOVO") ∷ (bios_version, "NSCN") ∷ []) model_nscn
    ∷ entry "RZCN" ((sys_vendor, "LENOVO") ∷ (bios_version, "RZCN") ∷ []) model_rzcn
    ∷ entry "4GCN" ((sys_vendor, "LENOVO") ∷ (bios_version, "4GCN") ∷ []) model_4gcn
    ∷ entry "M3CN" ((sys_vendor, "LENOVO") ∷ (bios_version, "M3CN") ∷ []) model_m3cn
    ∷ entry "9VCN" ((sys_vendor, "LENOVO") ∷ (bios_version, "9VCN") ∷ []) model_9vcn
    ∷ entry "JYCN" ((sys_vendor, "LENOVO") ∷ (bios_version, "JYCN") ∷ []) model_v2022
    ∷ entry "BVCN" ((sys_vendor, "LENOVO") ∷ (bios_version, "BVCN") ∷ []) model_bvcn
    ∷ entry "J2CN" ((sys_vendor, "LENOVO") ∷ (bios_version, "J2CN") ∷ []) model_j2cn
    ∷ []

abbrev allowlist_third : List DmiEntry
allowlist_third =
    entry "J1CN" ((sys_vendor, "LENOVO") ∷ (bios_version, "J1CN") ∷ []) model_j1cn
    ∷ entry "M0CN" ((sys_vendor, "LENOVO") ∷ (bios_version, "M0CN") ∷ []) model_m0cn
    ∷ entry "M1CN" ((sys_vendor, "LENOVO") ∷ (bios_version, "M1CN") ∷ []) model_m1cn
    ∷ entry "M2CN" ((sys_vendor, "LENOVO") ∷ (bios_version, "M2CN") ∷ []) model_m2cn
    ∷ entry "M6CN" ((sys_vendor, "LENOVO") ∷ (bios_version, "M6CN") ∷ []) model_m6cn
    ∷ entry "DMCN" ((sys_vendor, "LENOVO") ∷ (bios_version, "DMCN") ∷ []) model_dmcn
    ∷ entry "KHCN" ((sys_vendor, "LENOVO") ∷ (bios_version, "KHCN") ∷ []) model_khcn
    ∷ entry "JVCN" ((sys_vendor, "LENOVO") ∷ (bios_version, "JVCN") ∷ []) model_khcn
    ∷ entry "LZCN" ((sys_vendor, "LENOVO") ∷ (bios_version, "LZCN") ∷ []) model_lzcn
    ∷ entry "NECN" ((sys_vendor, "LENOVO") ∷ (bios_version, "NECN") ∷ []) model_necn
    ∷ entry "NZCN" ((sys_vendor, "LENOVO") ∷ (bios_version, "NZCN") ∷ []) model_nzcn
    ∷ entry "R8CN" ((sys_vendor, "LENOVO") ∷ (bios_version, "R8CN") ∷ []) model_r8cn
    ∷ entry "T2CN" ((sys_vendor, "LENOVO") ∷ (bios_version, "T2CN") ∷ []) model_t2cn
    ∷ entry "T3CN" ((sys_vendor, "LENOVO") ∷ (bios_version, "T3CN") ∷ []) model_t2cn
    ∷ entry "QNCN" ((sys_vendor, "LENOVO") ∷ (bios_version, "QNCN") ∷ []) model_qncn
    ∷ entry "PQCN" ((sys_vendor, "LENOVO") ∷ (bios_version, "PQCN") ∷ []) model_nzcn
    ∷ []

abbrev allowlist_tail : List DmiEntry
allowlist_tail =
    entry "N0CN" ((sys_vendor, "LENOVO") ∷ (bios_version, "N0CN") ∷ []) model_g8cn
    ∷ entry "N2CN" ((sys_vendor, "LENOVO") ∷ (product_name, "83DE") ∷ (bios_version, "N2CN") ∷ [])
        model_n2cn
    ∷ entry "NXCN" ((sys_vendor, "LENOVO") ∷ (bios_version, "NXCN") ∷ []) model_nxcn
    ∷ entry "NRCN" ((sys_vendor, "LENOVO") ∷ (bios_version, "NRCN") ∷ []) model_nrcn
    ∷ entry "R3CN" ((sys_vendor, "LENOVO") ∷ (bios_version, "R3CN") ∷ []) model_r3cn
    ∷ entry "RXCN" ((sys_vendor, "LENOVO") ∷ (bios_version, "RXCN") ∷ []) model_rxcn
    ∷ entry "S2CN" ((sys_vendor, "LENOVO") ∷ (bios_version, "S2CN") ∷ []) model_s2cn
    ∷ entry "SECN" ((sys_vendor, "LENOVO") ∷ (bios_version, "SECN") ∷ []) model_secn
    ∷ entry "RECN" ((sys_vendor, "LENOVO") ∷ (bios_version, "RECN") ∷ []) model_recn
    ∷ entry "NMCN" ((sys_vendor, "LENOVO") ∷ (bios_version, "NMCN") ∷ []) model_nmcn
    ∷ entry "Q8CN" ((sys_vendor, "LENOVO") ∷ (bios_version, "Q8CN") ∷ []) model_q8cn
    ∷ entry "UFCN" ((sys_vendor, "LENOVO") ∷ (bios_version, "UFCN") ∷ []) model_ufcn
    ∷ entry "PTCN" ((sys_vendor, "LENOVO") ∷ (bios_version, "PTCN") ∷ []) model_nmcn
    ∷ []

abbrev pub optimistic_allowlist : List DmiEntry
optimistic_allowlist = allowlist_head ++ (allowlist_second ++ (allowlist_third ++ allowlist_tail))
