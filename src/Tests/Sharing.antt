-- ===== src/Tests/Sharing.antt =====
-- The deep copy of an object bucket with every pointer and map, some of which are one another's.
use lib_bucket_provisioner.Base.{codes, Entries, some, [], ◌∷◌}
use lib_bucket_provisioner.V1alpha1.{empty_meta, pos}
use lib_bucket_provisioner.V1alpha1.DeepCopy.Shared.{Cell, SharedConnection, SharedBucket}

abbrev options : Cell Entries
options = record { address = 4; content = (codes "tls", codes "on") ∷ [] }

-- The map of the endpoint is the connection's additional state too.
abbrev shared_connection : SharedConnection
shared_connection = record {
  endpoint = some (record {
    address = 3;
    content = record {
      bucket_host = codes "s3.local";
      bucket_port = pos 443;
      bucket_name = codes "photo-1";
      region = [];
      sub_region = [];
      additional_config_data = some options;
    };
  });
  authentication = some (record {
    address = 5;
    content = record {
      access_keys = some (record {
        address = 6;
        content = record { access_key_id = codes "id"; secret_access_key = codes "key" };
      });
      additional_secret_data = some (record { address = 7; content = [] });
    };
  });
  additional_state = some options;
}

abbrev shared_bucket : SharedBucket
shared_bucket = record {
  type_meta = record { kind = codes "ObjectBucket"; api_version = [] };
  meta = empty_meta;
  spec = record {
    storage_class_name = codes "fast";
    reclaim_policy = some (record { address = 1; content = codes "Delete" });
    claim_ref = some (record {
      address = 2;
      content = record {
        kind = codes "ObjectBucketClaim";
        namespace = codes "apps";
        name = codes "photos";
        uid = codes "1";
        api_version = [];
        resource_version = [];
        field_path = [];
      };
    });
    connection = some (record { address = 8; content = shared_connection });
  };
  status = record { phase = [] };
}
