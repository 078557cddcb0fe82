-- ===== src/Measured/Logs.antt =====
-- Recorded logs of the counting proxy, row by row (docs/evidence/f49-endpoints-and-tensor, proxyN.json.ts).
pub mod LayerHalf1
pub mod LayerHalf2
pub mod LayerHalf3
pub mod TensorHalf1
pub mod TensorHalf2
pub mod TensorHalf3
pub mod FirstLayer1
pub mod FirstLayer2
pub mod FirstLayer3
pub mod FirstTensor1
pub mod FirstTensor2
pub mod FirstTensor3
pub mod LargeTensor1A
pub mod LargeTensor1B
pub mod LargeTensor1C
