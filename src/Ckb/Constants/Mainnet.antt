-- ===== src/Ckb/Constants/Mainnet.antt =====
-- packages/ckb/src/constants/index.ts: the scripts and the cell deps of the mainnet.
use rgbpp_sdk.Common.{[]}
use rgbpp_sdk.Ckb.Types.{by_type, by_data1, Script, code_dep, dep_group, CellDep}

abbrev pub mainnet_secp256k1_lock_dep : CellDep
mainnet_secp256k1_lock_dep = record {
  out_point = record {
    tx_hash = "0x71a7ba8fc96349fea0ed3a5c47992e3b4084b031a42264a018e0072e8172e46c";
    index = 0;
  };
  dep_type = dep_group;
}

abbrev pub mainnet_rgbpp_lock_script : Script
mainnet_rgbpp_lock_script = record {
  code_hash = "0xbc6c568a1a0d0a09f6844dc9d74ddb4343c32143ff25f727c59edf4fb72d6936";
  hash_type = by_type;
  args = [];
}

abbrev pub mainnet_rgbpp_lock_dep : CellDep
mainnet_rgbpp_lock_dep = record {
  out_point = record {
    tx_hash = "0xcb4d9f9726e66306bfda6359d39d3bea8b4e5345d0f95f26a3e51626ebe82a63";
    index = 0;
  };
  dep_type = code_dep;
}

abbrev pub mainnet_rgbpp_lock_config_dep : CellDep
mainnet_rgbpp_lock_config_dep = record {
  out_point = record {
    tx_hash = "0xcb4d9f9726e66306bfda6359d39d3bea8b4e5345d0f95f26a3e51626ebe82a63";
    index = 1;
  };
  dep_type = code_dep;
}

abbrev pub mainnet_btc_time_lock_script : Script
mainnet_btc_time_lock_script = record {
  code_hash = "0x70d64497a075bd651e98ac030455ea200637ee325a12ad08aff03f1a117e5a62";
  hash_type = by_type;
  args = [];
}

abbrev pub mainnet_btc_time_lock_dep : CellDep
mainnet_btc_time_lock_dep = record {
  out_point = record {
    tx_hash = "0x3d1c26b966504b09253ad84173bf3baa7b8135c5ff520c32cf70b631c1d08b9b";
    index = 0;
  };
  dep_type = code_dep;
}

abbrev pub mainnet_btc_time_lock_config_dep : CellDep
mainnet_btc_time_lock_config_dep = record {
  out_point = record {
    tx_hash = "0x3d1c26b966504b09253ad84173bf3baa7b8135c5ff520c32cf70b631c1d08b9b";
    index = 1;
  };
  dep_type = code_dep;
}

abbrev pub mainnet_xudt_type_script : Script
mainnet_xudt_type_script = record {
  code_hash = "0x50bd8d6680b8b9cf98b73f3c08faf8b2a21914311954118ad6609be6e78a1b95";
  hash_type = by_data1;
  args = [];
}

abbrev pub mainnet_xudt_type_dep : CellDep
mainnet_xudt_type_dep = record {
  out_point = record {
    tx_hash = "0xc07844ce21b38e4b071dd0e1ee3b0e27afd8d7532491327f39b786343f558ab7";
    index = 0;
  };
  dep_type = code_dep;
}

abbrev pub mainnet_unique_type_script : Script
mainnet_unique_type_script = record {
  code_hash = "0x2c8c11c985da60b0a330c61a85507416d6382c130ba67f0c47ab071e00aec628";
  hash_type = by_data1;
  args = [];
}

abbrev pub mainnet_unique_type_dep : CellDep
mainnet_unique_type_dep = record {
  out_point = record {
    tx_hash = "0x67524c01c0cb5492e499c7c7e406f2f9d823e162d6b0cf432eacde0c9808c2ad";
    index = 0;
  };
  dep_type = code_dep;
}

abbrev pub mainnet_cluster_type_script : Script
mainnet_cluster_type_script = record {
  code_hash = "0x7366a61534fa7c7e6225ecc0d828ea3b5366adec2b58206f2ee84995fe030075";
  hash_type = by_data1;
  args = [];
}

abbrev pub mainnet_cluster_type_dep : CellDep
mainnet_cluster_type_dep = record {
  out_point = record {
    tx_hash = "0xe464b7fb9311c5e2820e61c99afc615d6b98bdefbe318c34868c010cbd0dc938";
    index = 0;
  };
  dep_type = code_dep;
}

abbrev pub mainnet_spore_type_script : Script
mainnet_spore_type_script = record {
  code_hash = "0x4a4dce1df3dffff7f8b2cd7dff7303df3b6150c9788cb75dcf6747247132b9f5";
  hash_type = by_data1;
  args = [];
}

abbrev pub mainnet_spore_type_dep : CellDep
mainnet_spore_type_dep = record {
  out_point = record {
    tx_hash = "0x96b198fb5ddbd1eed57ed667068f1f1e55d07907b4c0dbd38675a69ea1b69824";
    index = 0;
  };
  dep_type = code_dep;
}

abbrev pub mainnet_utxo_airdrop_badge_type_script : Script
mainnet_utxo_airdrop_badge_type_script = record {
  code_hash = "0xf5da9003e31fa9301a3915fe304de9bdb80524b5f0d8fc325fb699317998ee7a";
  hash_type = by_type;
  args = [];
}

abbrev pub mainnet_utxo_airdrop_badge_type_dep : CellDep
mainnet_utxo_airdrop_badge_type_dep = record {
  out_point = record {
    tx_hash = "0xfa0a6821293cc1ef4ee67a900862208e27f67b98237c9b13bf93c84607c5cd33";
    index = 2;
  };
  dep_type = code_dep;
}

abbrev pub mainnet_token_metadata_type_script : Script
mainnet_token_metadata_type_script = record {
  code_hash = "0x0c7dc8caec145b51b142e13f47fe4262c80628213d1b6c3d9c1aa6a62088804e";
  hash_type = by_type;
  args = [];
}
