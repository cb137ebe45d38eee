-- ===== src/Ckb/Constants/Testnet.antt =====
-- packages/ckb/src/constants/index.ts: the scripts and the cell deps of the testnets.
use rgbpp_sdk.Common.{[]}
use rgbpp_sdk.Ckb.Types.{by_type, by_data1, Script, code_dep, dep_group, CellDep}

abbrev pub testnet_secp256k1_lock_dep : CellDep
testnet_secp256k1_lock_dep = record {
  out_point = record {
    tx_hash = "0xf8de3bb47d055cdf460d93a2a6e1b05f7432f9777c8c474abf4eec1d4aee5d37";
    index = 0;
  };
  dep_type = dep_group;
}

abbrev pub testnet_rgbpp_lock_script : Script
testnet_rgbpp_lock_script = record {
  code_hash = "0x61ca7a4796a4eb19ca4f0d065cb9b10ddcf002f10f7cbb810c706cb6bb5c3248";
  hash_type = by_type;
  args = [];
}

abbrev pub testnet_rgbpp_lock_dep : CellDep
testnet_rgbpp_lock_dep = record {
  out_point = record {
    tx_hash = "0x0d1567da0979f78b297d5311442669fbd1bd853c8be324c5ab6da41e7a1ed6e5";
    index = 0;
  };
  dep_type = code_dep;
}

abbrev pub testnet_rgbpp_lock_config_dep : CellDep
testnet_rgbpp_lock_config_dep = record {
  out_point = record {
    tx_hash = "0x0d1567da0979f78b297d5311442669fbd1bd853c8be324c5ab6da41e7a1ed6e5";
    index = 1;
  };
  dep_type = code_dep;
}

abbrev pub testnet_btc_time_lock_script : Script
testnet_btc_time_lock_script = record {
  code_hash = "0x00cdf8fab0f8ac638758ebf5ea5e4052b1d71e8a77b9f43139718621f6849326";
  hash_type = by_type;
  args = [];
}

abbrev pub testnet_btc_time_lock_dep : CellDep
testnet_btc_time_lock_dep = record {
  out_point = record {
    tx_hash = "0x8fb747ff0416a43e135c583b028f98c7b81d3770551b196eb7ba1062dd9acc94";
    index = 0;
  };
  dep_type = code_dep;
}

abbrev pub testnet_btc_time_lock_config_dep : CellDep
testnet_btc_time_lock_config_dep = record {
  out_point = record {
    tx_hash = "0x8fb747ff0416a43e135c583b028f98c7b81d3770551b196eb7ba1062dd9acc94";
    index = 1;
  };
  dep_type = code_dep;
}

abbrev pub testnet_xudt_type_script : Script
testnet_xudt_type_script = record {
  code_hash = "0x25c29dc317811a6f6f3985a7a9ebc4838bd388d19d0feeecf0bcd60f6c0975bb";
  hash_type = by_type;
  args = [];
}

abbrev pub testnet_xudt_type_dep : CellDep
testnet_xudt_type_dep = record {
  out_point = record {
    tx_hash = "0xbf6fb538763efec2a70a6a3dcb7242787087e1030c4e7d86585bc63a9d337f5f";
    index = 0;
  };
  dep_type = code_dep;
}

abbrev pub testnet_unique_type_script : Script
testnet_unique_type_script = record {
  code_hash = "0x8e341bcfec6393dcd41e635733ff2dca00a6af546949f70c57a706c0f344df8b";
  hash_type = by_type;
  args = [];
}

abbrev pub testnet_unique_type_dep : CellDep
testnet_unique_type_dep = record {
  out_point = record {
    tx_hash = "0xff91b063c78ed06f10a1ed436122bd7d671f9a72ef5f5fa28d05252c17cf4cef";
    index = 0;
  };
  dep_type = code_dep;
}

abbrev pub testnet_cluster_type_script : Script
testnet_cluster_type_script = record {
  code_hash = "0x0bbe768b519d8ea7b96d58f1182eb7e6ef96c541fbd9526975077ee09f049058";
  hash_type = by_data1;
  args = [];
}

abbrev pub testnet_cluster_type_dep : CellDep
testnet_cluster_type_dep = record {
  out_point = record {
    tx_hash = "0xcebb174d6e300e26074aea2f5dbd7f694bb4fe3de52b6dfe205e54f90164510a";
    index = 0;
  };
  dep_type = code_dep;
}

abbrev pub testnet_spore_type_script : Script
testnet_spore_type_script = record {
  code_hash = "0x685a60219309029d01310311dba953d67029170ca4848a4ff638e57002130a0d";
  hash_type = by_data1;
  args = [];
}

abbrev pub testnet_spore_type_dep : CellDep
testnet_spore_type_dep = record {
  out_point = record {
    tx_hash = "0x5e8d2a517d50fd4bb4d01737a7952a1f1d35c8afc77240695bb569cd7d9d5a1f";
    index = 0;
  };
  dep_type = code_dep;
}

abbrev pub testnet_rgbpp_signet_lock_script : Script
testnet_rgbpp_signet_lock_script = record {
  code_hash = "0xd07598deec7ce7b5665310386b4abd06a6d48843e953c5cc2112ad0d5a220364";
  hash_type = by_type;
  args = [];
}

abbrev pub testnet_rgbpp_signet_lock_dep : CellDep
testnet_rgbpp_signet_lock_dep = record {
  out_point = record {
    tx_hash = "0x61efdeddbaa0bb4132c0eb174b3e8002ff5ec430f61ba46f30768d683c516eec";
    index = 0;
  };
  dep_type = code_dep;
}

abbrev pub testnet_rgbpp_signet_lock_config_dep : CellDep
testnet_rgbpp_signet_lock_config_dep = record {
  out_point = record {
    tx_hash = "0x61efdeddbaa0bb4132c0eb174b3e8002ff5ec430f61ba46f30768d683c516eec";
    index = 1;
  };
  dep_type = code_dep;
}

abbrev pub testnet_btc_time_signet_lock_script : Script
testnet_btc_time_signet_lock_script = record {
  code_hash = "0x80a09eca26d77cea1f5a69471c59481be7404febf40ee90f886c36a948385b55";
  hash_type = by_type;
  args = [];
}

abbrev pub testnet_btc_time_signet_lock_dep : CellDep
testnet_btc_time_signet_lock_dep = record {
  out_point = record {
    tx_hash = "0x5364b3535965e9eac9a35dd7af8e9e45a61d30a16e115923c032f80b28783e21";
    index = 0;
  };
  dep_type = code_dep;
}

abbrev pub testnet_btc_time_signet_lock_config_dep : CellDep
testnet_btc_time_signet_lock_config_dep = record {
  out_point = record {
    tx_hash = "0x5364b3535965e9eac9a35dd7af8e9e45a61d30a16e115923c032f80b28783e21";
    index = 1;
  };
  dep_type = code_dep;
}

abbrev pub testnet_utxo_airdrop_badge_type_script : Script
testnet_utxo_airdrop_badge_type_script = record {
  code_hash = "0xf5da9003e31fa9301a3915fe304de9bdb80524b5f0d8fc325fb699317998ee7a";
  hash_type = by_type;
  args = [];
}

abbrev pub testnet_utxo_airdrop_badge_type_dep : CellDep
testnet_utxo_airdrop_badge_type_dep = record {
  out_point = record {
    tx_hash = "0xbbbb73972ac260a0f7204bea707288c3970688fe8714c3246a5e9a538168a42a";
    index = 0;
  };
  dep_type = code_dep;
}

abbrev pub testnet_token_metadata_type_script : Script
testnet_token_metadata_type_script = record {
  code_hash = "0x0c7dc8caec145b51b142e13f47fe4262c80628213d1b6c3d9c1aa6a62088804e";
  hash_type = by_type;
  args = [];
}
