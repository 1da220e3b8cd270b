-- ===== src/Config/Settings.antt =====
-- The settings records of internal/config/config.go and their default values.
use system_monitor_go.Base.{ℤ, pos, [], Text, codes}

pub record CpuCollectorSettings : Type 0 where
  pub cache_duration_seconds : ℤ
  pub background_sampling_millis : ℤ
  pub background_frequency_seconds : ℤ
  pub direct_sampling_millis : ℤ

pub record SystemCollectorSettings : Type 0 where
  pub cache_duration_seconds : ℤ
  pub update_frequency_seconds : ℤ

pub record MemoryCollectorSettings : Type 0 where
  pub cache_duration_seconds : ℤ
  pub update_frequency_seconds : ℤ

pub record DiskCollectorSettings : Type 0 where
  pub cache_duration_seconds : ℤ
  pub update_frequency_seconds : ℤ

pub record NetworkCollectorSettings : Type 0 where
  pub cache_duration_seconds : ℤ
  pub update_frequency_seconds : ℤ

pub record DockerCollectorSettings : Type 0 where
  pub cache_duration_seconds : ℤ
  pub update_frequency_seconds : ℤ

pub record ProcessCollectorSettings : Type 0 where
  pub cache_duration_seconds : ℤ
  pub update_frequency_seconds : ℤ

pub record ServiceCollectorSettings : Type 0 where
  pub cache_duration_seconds : ℤ
  pub update_frequency_seconds : ℤ

pub record CollectorSettings : Type 0 where
  pub cpu : CpuCollectorSettings
  pub system : SystemCollectorSettings
  pub memory : MemoryCollectorSettings
  pub disk : DiskCollectorSettings
  pub network : NetworkCollectorSettings
  pub docker : DockerCollectorSettings
  pub process : ProcessCollectorSettings
  pub service : ServiceCollectorSettings

pub record Config : Type 0 where
  pub collection_interval : ℤ
  pub sending_interval : ℤ
  pub server_url : Text
  pub local_key : Text
  pub user_key : Text
  pub external_ip : Text
  pub collectors : CollectorSettings

abbrev pub default_config : Config
default_config = record {
  collection_interval = pos 2;
  sending_interval = pos 2;
  server_url = codes "1.209.148.143:8087";
  local_key = [];
  user_key = [];
  external_ip = [];
  collectors = record {
    cpu = record {
      cache_duration_seconds = pos 3;
      background_sampling_millis = pos 500;
      background_frequency_seconds = pos 2;
      direct_sampling_millis = pos 750;
    };
    system = record { cache_duration_seconds = pos 3; update_frequency_seconds = pos 2 };
    memory = record { cache_duration_seconds = pos 3; update_frequency_seconds = pos 2 };
    disk = record { cache_duration_seconds = pos 3; update_frequency_seconds = pos 2 };
    network = record { cache_duration_seconds = pos 3; update_frequency_seconds = pos 2 };
    docker = record { cache_duration_seconds = pos 3; update_frequency_seconds = pos 2 };
    process = record { cache_duration_seconds = pos 3; update_frequency_seconds = pos 2 };
    service = record { cache_duration_seconds = pos 3; update_frequency_seconds = pos 2 };
  };
}

-- `CollectorSettings` and `Config` with every field zero, as Go makes them.
abbrev pub zero_config : Config
zero_config = record {
  collection_interval = pos 0;
  sending_interval = pos 0;
  server_url = [];
  local_key = [];
  user_key = [];
  external_ip = [];
  collectors = record {
    cpu = record {
      cache_duration_seconds = pos 0;
      background_sampling_millis = pos 0;
      background_frequency_seconds = pos 0;
      direct_sampling_millis = pos 0;
    };
    system = record { cache_duration_seconds = pos 0; update_frequency_seconds = pos 0 };
    memory = record { cache_duration_seconds = pos 0; update_frequency_seconds = pos 0 };
    disk = record { cache_duration_seconds = pos 0; update_frequency_seconds = pos 0 };
    network = record { cache_duration_seconds = pos 0; update_frequency_seconds = pos 0 };
    docker = record { cache_duration_seconds = pos 0; update_frequency_seconds = pos 0 };
    process = record { cache_duration_seconds = pos 0; update_frequency_seconds = pos 0 };
    service = record { cache_duration_seconds = pos 0; update_frequency_seconds = pos 0 };
  };
}
