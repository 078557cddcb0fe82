-- ===== src/Script.antt =====
-- What the Python demos share with the Swift core and among themselves:
-- scripts/four_platform_pool_lib.py and scripts/inference_pipeline_lib.py.
pub mod Apportion
pub mod Agreement
pub mod Activation
pub mod Shards
