-- ===== src/Library/Table/World.antt =====
-- A part of QZ_LIB_FUNCTIONS of quuz-lib.c. Section 6.13: ports, input, output and the system.
use quuz.Prelude.{List, [], ◌∷◌}
use quuz.Prelude.Text.{codes}
use quuz.Hash.{CityHash}
use quuz.Library.Table.{Host, Entry}
use quuz.Library.Input.{
  scm_peek_char, scm_read, scm_read_bytevector, scm_read_bytevector_b, scm_read_char, scm_read_line,
  scm_read_u8,
}
use quuz.Library.Output.{
  scm_display, scm_flush_output_port, scm_newline, scm_write, scm_write_bytevector, scm_write_char,
  scm_write_partial_bytevector, scm_write_u8,
}
use quuz.Library.Ports.{
  scm_binary_port_q, scm_call_with_input_file, scm_call_with_output_file, scm_call_with_port,
  scm_close_input_port, scm_close_output_port, scm_close_port, scm_current_error_port,
  scm_current_input_port, scm_current_output_port, scm_input_port_q, scm_open_binary_input_file,
  scm_open_binary_output_file, scm_open_input_file, scm_open_output_file, scm_output_port_q,
  scm_port_open_q, scm_port_q, scm_textual_port_q, scm_with_input_from_file,
  scm_with_output_to_file,
}
use quuz.Library.Predicates.{scm_eof_object_q}
use quuz.Library.System.{
  scm_command_line, scm_current_second, scm_delete_file, scm_exit, scm_file_exists_q,
  scm_get_environment_variable, scm_get_environment_variables,
}

unfoldable pub world_functions : ⦃city : CityHash⦄ → Host → List Entry
unfolding scm_binary_port_q scm_call_with_input_file scm_call_with_output_file scm_call_with_port
    scm_close_input_port scm_close_output_port scm_close_port scm_command_line
    scm_current_error_port scm_current_input_port scm_current_output_port scm_current_second
    scm_delete_file scm_display scm_eof_object_q scm_exit scm_file_exists_q scm_flush_output_port
    scm_get_environment_variable scm_get_environment_variables scm_input_port_q scm_newline
    scm_open_binary_input_file scm_open_binary_output_file scm_open_input_file scm_open_output_file
    scm_output_port_q scm_peek_char scm_port_open_q scm_port_q scm_read scm_read_bytevector
    scm_read_bytevector_b scm_read_char scm_read_line scm_read_u8 scm_textual_port_q
    scm_with_input_from_file scm_with_output_to_file scm_write scm_write_bytevector scm_write_char
    scm_write_partial_bytevector scm_write_u8
world_functions host =
    record {
      name = codes "call-with-input-file";
      function = λ ev _. scm_call_with_input_file host.files ev;
    }
    ∷ record {
      name = codes "call-with-output-file";
      function = λ ev _. scm_call_with_output_file host.files ev;
    }
    ∷ record { name = codes "call-with-port"; function = λ ev _. scm_call_with_port host.files ev }
    ∷ record { name = codes "input-port?"; function = λ ev _. scm_input_port_q ev }
    ∷ record { name = codes "output-port?"; function = λ ev _. scm_output_port_q ev }
    ∷ record { name = codes "textual-port?"; function = λ ev _. scm_textual_port_q ev }
    ∷ record { name = codes "binary-port?"; function = λ ev _. scm_binary_port_q ev }
    ∷ record { name = codes "port?"; function = λ ev _. scm_port_q ev }
    ∷ record { name = codes "port-open?"; function = λ ev _. scm_port_open_q ev }
    ∷ record { name = codes "current-input-port"; function = λ _ _. scm_current_input_port }
    ∷ record { name = codes "current-output-port"; function = λ _ _. scm_current_output_port }
    ∷ record { name = codes "current-error-port"; function = λ _ _. scm_current_error_port }
    ∷ record {
      name = codes "with-input-from-file";
      function = λ ev _. scm_with_input_from_file host.files ev;
    }
    ∷ record {
      name = codes "with-output-to-file";
      function = λ ev _. scm_with_output_to_file host.files ev;
    }
    ∷ record {
      name = codes "open-input-file";
      function = λ ev _. scm_open_input_file host.files ev;
    }
    ∷ record {
      name = codes "open-binary-input-file";
      function = λ ev _. scm_open_binary_input_file host.files ev;
    }
    ∷ record {
      name = codes "open-output-file";
      function = λ ev _. scm_open_output_file host.files ev;
    }
    ∷ record {
      name = codes "open-binary-output-file";
      function = λ ev _. scm_open_binary_output_file host.files ev;
    }
    ∷ record { name = codes "close-port"; function = λ ev _. scm_close_port host.files ev }
    ∷ record {
      name = codes "close-input-port";
      function = λ ev _. scm_close_input_port host.files ev;
    }
    ∷ record {
      name = codes "close-output-port";
      function = λ ev _. scm_close_output_port host.files ev;
    }
    ∷ record { name = codes "read"; function = λ ev _. scm_read host.files ev }
    ∷ record { name = codes "read-char"; function = λ ev _. scm_read_char host.files ev }
    ∷ record { name = codes "peek-char"; function = λ ev _. scm_peek_char host.files ev }
    ∷ record { name = codes "read-line"; function = λ ev _. scm_read_line host.files ev }
    ∷ record { name = codes "eof-object?"; function = λ ev _. scm_eof_object_q ev }
    ∷ record { name = codes "read-u8"; function = λ ev _. scm_read_u8 host.files ev }
    ∷ record {
      name = codes "read-bytevector";
      function = λ ev _. scm_read_bytevector host.files ev;
    }
    ∷ record {
      name = codes "read-bytevector!";
      function = λ ev _. scm_read_bytevector_b host.files ev;
    }
    ∷ record { name = codes "write"; function = λ ev n. scm_write host.libc ev n }
    ∷ record { name = codes "display"; function = λ ev n. scm_display host.libc ev n }
    ∷ record { name = codes "newline"; function = λ ev _. scm_newline host.files ev }
    ∷ record { name = codes "write-char"; function = λ ev _. scm_write_char ev }
    ∷ record { name = codes "write-u8"; function = λ ev _. scm_write_u8 host.files ev }
    ∷ record {
      name = codes "write-bytevector";
      function = λ ev _. scm_write_bytevector host.files ev;
    }
    ∷ record {
      name = codes "write-partial-bytevector";
      function = λ ev _. scm_write_partial_bytevector host.files ev;
    }
    ∷ record {
      name = codes "flush-output-port";
      function = λ ev _. scm_flush_output_port host.files ev;
    }
    ∷ record { name = codes "file-exists?"; function = λ ev _. scm_file_exists_q host.files ev }
    ∷ record { name = codes "delete-file"; function = λ ev _. scm_delete_file host.files ev }
    ∷ record { name = codes "command-line"; function = λ _ _. scm_command_line host.files }
    ∷ record { name = codes "exit"; function = λ ev _. scm_exit host.files ev }
    ∷ record {
      name = codes "get-environment-variable";
      function = λ ev _. scm_get_environment_variable host.files ev;
    }
    ∷ record {
      name = codes "get-environment-variables";
      function = λ _ _. scm_get_environment_variables host.files;
    }
    ∷ record { name = codes "current-second"; function = λ _ _. scm_current_second host.files }
    ∷ []
