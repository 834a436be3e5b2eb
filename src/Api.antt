-- ===== src/Api.antt =====
pub mod Runtime
pub mod Message
pub mod HelloRequest
pub mod HelloResponse
pub mod ConnectRequest
pub mod ConnectResponse
pub mod DisconnectRequest
pub mod DisconnectResponse
pub mod PingRequest
pub mod PingResponse
pub mod DeviceInfoRequest
pub mod AreaInfo
pub mod DeviceInfo
pub mod DeviceInfoResponse
pub mod ListEntitiesRequest
pub mod ListEntitiesDoneResponse
pub mod SubscribeBluetoothLeAdvertisementsRequest
pub mod BluetoothServiceData
pub mod BluetoothLeAdvertisementResponse
pub mod BluetoothLeRawAdvertisement
pub mod BluetoothLeRawAdvertisementsResponse
pub mod SubscribeBluetoothConnectionsFreeRequest
pub mod BluetoothConnectionsFreeResponse
