-- ===== src/Error.antt =====
-- kernel/src/error.rs: the error values of the kernel.
use star_os_kernel.Prelude.{String}

pub data MemoryError : Type 0 where
  out_of_memory invalid_address invalid_alignment permission_denied region_not_found : MemoryError
  already_mapped not_mapped allocation_failed invalid_size too_many_regions double_free :
      MemoryError

pub data InterruptError : Type 0 where
  not_initialized invalid_irq already_registered not_registered handler_failed : InterruptError

pub data ProcessError : Type 0 where
  invalid_process_id process_not_found too_many_processes invalid_priority : ProcessError
  already_terminated spawn_failed : ProcessError

pub data DeviceError : Type 0 where
  not_initialized not_ready timeout io_error invalid_command hardware_error : DeviceError

pub data SecurityError : Type 0 where
  permission_denied invalid_credentials verification_failed access_denied : SecurityError

pub data FilesystemError : Type 0 where
  not_found permission_denied already_exists invalid_path io_error corrupted_data : FilesystemError

pub data NetworkError : Type 0 where
  not_connected timeout invalid_address protocol_error connection_refused : NetworkError

pub data KernelError : Type 0 where
  memory : MemoryError → KernelError
  interrupt : InterruptError → KernelError
  process : ProcessError → KernelError
  filesystem : FilesystemError → KernelError
  network : NetworkError → KernelError
  device : DeviceError → KernelError
  security : SecurityError → KernelError
  invalid_parameter : String → KernelError
  not_initialized invalid_address not_found not_supported timeout : KernelError
  resource_exhausted operation_failed not_implemented : KernelError
