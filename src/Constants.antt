-- ===== src/Constants.antt =====
-- disastrOS_constants.h: the error codes, system call numbers, modes and bounds of the program.
use messages_queue_disastros.Prelude.{ℕ, ℤ, pos, negsuc}

-- Errors.
abbrev pub e_syscall_not_implemented : ℤ
e_syscall_not_implemented = negsuc 1

abbrev pub e_syscall_out_of_range : ℤ
e_syscall_out_of_range = negsuc 2

abbrev pub e_wait : ℤ
e_wait = negsuc 4

abbrev pub e_spawn : ℤ
e_spawn = negsuc 5

abbrev pub e_sleep : ℤ
e_sleep = negsuc 6

abbrev pub e_resource_create : ℤ
e_resource_create = negsuc 7

abbrev pub e_resource_open : ℤ
e_resource_open = negsuc 8

abbrev pub e_resource_no_excl : ℤ
e_resource_no_excl = negsuc 9

abbrev pub e_resource_no_fd : ℤ
e_resource_no_fd = negsuc 10

abbrev pub e_resource_close : ℤ
e_resource_close = negsuc 11

abbrev pub e_resource_in_use : ℤ
e_resource_in_use = negsuc 12

abbrev pub e_resource_type_not_existing : ℤ
e_resource_type_not_existing = negsuc 13

abbrev pub e_resource_type_wrong : ℤ
e_resource_type_wrong = negsuc 14

abbrev pub message_length_not_valid : ℤ
message_length_not_valid = negsuc 16

abbrev pub message_queue_full : ℤ
message_queue_full = negsuc 17

abbrev pub message_queue_empty : ℤ
message_queue_empty = negsuc 18

abbrev pub resource_not_found : ℤ
resource_not_found = negsuc 19

abbrev pub waiting_for_message : ℤ
waiting_for_message = negsuc 21

-- System call numbers.
abbrev pub call_preempt : ℤ
call_preempt = pos 1

abbrev pub call_fork : ℤ
call_fork = pos 2

abbrev pub call_wait : ℤ
call_wait = pos 3

abbrev pub call_exit : ℤ
call_exit = pos 4

abbrev pub call_spawn : ℤ
call_spawn = pos 5

abbrev pub call_sleep : ℤ
call_sleep = pos 6

abbrev pub call_open_resource : ℤ
call_open_resource = pos 7

abbrev pub call_close_resource : ℤ
call_close_resource = pos 8

abbrev pub call_destroy_resource : ℤ
call_destroy_resource = pos 9

abbrev pub call_shutdown : ℤ
call_shutdown = pos 10

abbrev pub call_message_queue_write : ℤ
call_message_queue_write = pos 11

abbrev pub call_message_queue_read : ℤ
call_message_queue_read = pos 12

abbrev pub max_syscalls : ℤ
max_syscalls = pos 32

-- Modes and types of resources.
abbrev pub dsos_create : ℤ
dsos_create = pos 1

abbrev pub dsos_read : ℤ
dsos_read = pos 2

abbrev pub dsos_write : ℤ
dsos_write = pos 3

abbrev pub dsos_excl : ℤ
dsos_excl = pos 4

abbrev pub standard_resource_type : ℤ
standard_resource_type = pos 0

abbrev pub message_queue_type : ℤ
message_queue_type = pos 1

abbrev pub max_type_resources : ℤ
max_type_resources = pos 2

-- Signals and bounds.
abbrev pub dsos_sigchld : ℕ
dsos_sigchld = 1

abbrev pub dsos_sighup : ℕ
dsos_sighup = 2

abbrev pub max_num_processes : ℕ
max_num_processes = 1024

abbrev pub max_num_resources : ℕ
max_num_resources = 1024

abbrev pub m_for_mq : ℕ
m_for_mq = 128

abbrev pub message_string_max_length : ℕ
message_string_max_length = 128

abbrev pub max_num_descriptors_per_process : ℕ
max_num_descriptors_per_process = 32
